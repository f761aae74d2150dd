-- ===== src/Tests/Streams.antt =====
-- Streams as the host's library documents them inside their bounds, which satisfy its laws.
use eigrpd.Base.{refl, u8, [], ◌∷◌, ◌+◌}
use eigrpd.Stream.{Buffer, StreamLib, with_bytes, bytes_w, bytes_l, word, long}

instance pub byte_streams : StreamLib
byte_streams = record {
  getc = λ s. (s.byte s.getp, record s { getp = s.getp + 1 });
  getc_lem = λ s h. refl;
  getw = λ s. (word s.byte s.getp, record s { getp = s.getp + 2 });
  getw_lem = λ s h. refl;
  getl = λ s. (long s.byte s.getp, record s { getp = s.getp + 4 });
  getl_lem = λ s h. refl;
  putc = λ n s. (tt, with_bytes s (u8 n ∷ []) 1);
  putc_lem = λ s n h. refl;
  putw = λ n s. (tt, with_bytes s (bytes_w n) 2);
  putw_lem = λ s n h. refl;
  putl = λ n s. (tt, with_bytes s (bytes_l n) 4);
  putl_lem = λ s n h. refl;
  set_getp = λ n s. (tt, record s { getp = n });
  set_getp_lem = λ s n h. refl;
  set_endp = λ n s. (tt, record s { endp = n });
  set_endp_lem = λ s n g h. refl;
}

-- An empty stream of a packet's size.
abbrev pub empty_stream : Buffer
empty_stream = record { byte = λ i. 0; getp = 0; endp = 0; size = 1500 }
