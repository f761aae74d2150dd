-- ===== src/Stream.antt =====
-- The host's packet stream (lib/stream.h), which the daemon calls and does not implement: a
-- parameter of the model. A stream is a buffer with a place to read at and an end to write at.
pub mod Runs
pub mod Reading
pub mod Writing
pub mod Safe
use eigrpd.Base.{
  ℕ, zero, suc, leb, ◌-◌, Bool, ◌+◌, ◌*◌, ◌/◌, ◌≤◌, ◌<◌, ◌≡◌, List, [], ◌∷◌, ◌==◌, if◌then◌else◌,
  u8,
}

pub record Buffer : Type 0 where
  pub byte : ℕ → ℕ
  pub getp : ℕ
  pub endp : ℕ
  pub size : ℕ

-- Code over a stream.
abbrev pub S : Type 0 → Type 0
S A = Buffer → A × Buffer

unfoldable pub pure : {A : Type 0} → A → S A
pure a s = (a, s)

-- Opening this opens `pure` too.
infixl 5 ◌>>=◌ ◌>>◌
unfoldable pub ◌>>=◌ : {A B : Type 0} → S A → (A → S B) → S B
unfolding pure
◌>>=◌ m f s = f (m s).0 (m s).1

abbrev pub ◌>>◌ : {B : Type 0} → S (Unit {0}) → S B → S B
m >> k = m >>= λ _. k

-- Bytes laid over a buffer, from a place on.
abbrev pub over : (ℕ → ℕ) → ℕ → List ℕ → ℕ → ℕ
over byte i [] j = byte j
over byte i (x ∷ xs) j = let rest = over byte (i + 1) xs j in if j == i then x else rest

-- The stream with bytes at its end.
abbrev pub with_bytes : Buffer → List ℕ → ℕ → Buffer
with_bytes s xs n = record s { byte = over s.byte s.endp xs; endp = s.endp + n }

-- Numbers of two and four bytes, the high byte first.
abbrev pub bytes_w : ℕ → List ℕ
bytes_w n = u8 (n / 256) ∷ u8 n ∷ []

abbrev pub bytes_l : ℕ → List ℕ
bytes_l n = u8 (n / 16777216) ∷ u8 (n / 65536) ∷ u8 (n / 256) ∷ u8 n ∷ []

abbrev pub word : (ℕ → ℕ) → ℕ → ℕ
word byte i = byte i * 256 + byte (i + 1)

abbrev pub long : (ℕ → ℕ) → ℕ → ℕ
long byte i = ((byte i * 256 + byte (i + 1)) * 256 + byte (i + 1 + 1)) * 256 + byte (i + 1 + 1 + 1)

-- Each law has the bound inside which the host's function is used: outside it, the host reports an
-- error.
pub record StreamLib : Type 0 where
  pub getc : S ℕ
  pub getc_lem :
      (s : Buffer) → s.getp < s.endp → getc s ≡ (s.byte s.getp, record s { getp = s.getp + 1 })
  pub getw : S ℕ
  pub getw_lem :
      (s : Buffer)
      → s.getp + 2 ≤ s.endp
      → getw s ≡ (word s.byte s.getp, record s { getp = s.getp + 2 })
  pub getl : S ℕ
  pub getl_lem :
      (s : Buffer)
      → s.getp + 4 ≤ s.endp
      → getl s ≡ (long s.byte s.getp, record s { getp = s.getp + 4 })
  pub putc : ℕ → S (Unit {0})
  pub putc_lem :
      (s : Buffer) (n : ℕ) → s.endp < s.size → putc n s ≡ (tt, with_bytes s (u8 n ∷ []) 1)
  pub putw : ℕ → S (Unit {0})
  pub putw_lem :
      (s : Buffer) (n : ℕ) → s.endp + 2 ≤ s.size → putw n s ≡ (tt, with_bytes s (bytes_w n) 2)
  pub putl : ℕ → S (Unit {0})
  pub putl_lem :
      (s : Buffer) (n : ℕ) → s.endp + 4 ≤ s.size → putl n s ≡ (tt, with_bytes s (bytes_l n) 4)
  pub set_getp : ℕ → S (Unit {0})
  pub set_getp_lem : (s : Buffer) (n : ℕ) → n ≤ s.endp → set_getp n s ≡ (tt, record s { getp = n })
  pub set_endp : ℕ → S (Unit {0})
  pub set_endp_lem :
      (s : Buffer) (n : ℕ) → s.getp ≤ n → n ≤ s.size → set_endp n s ≡ (tt, record s { endp = n })

-- `stream_get_getp` and `stream_get_endp`.
unfoldable pub get_getp : S ℕ
get_getp s = (s.getp, s)

unfoldable pub get_endp : S ℕ
get_endp s = (s.endp, s)

-- What is left to be read, as both codecs compute it.
abbrev pub remaining : Buffer → ℕ
remaining s = if leb s.endp s.getp then 0 else s.endp - s.getp

unfoldable pub has : ℕ → S Bool
has n s = (leb n (remaining s), s)

module _ ⦃sl : StreamLib⦄ where
  -- A loop of `stream_getc`, and one of `stream_putc`.
  unfoldable pub get_bytes : ℕ → S (List ℕ)
  get_bytes zero = pure []
  get_bytes (suc n) = do c ← sl.getc; cs ← get_bytes n; pure (c ∷ cs)

  unfoldable pub put_bytes : List ℕ → S (Unit {0})
  put_bytes [] = pure tt
  put_bytes (c ∷ cs) = do sl.putc c; put_bytes cs
