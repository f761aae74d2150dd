-- ===== src/Filter.antt =====
-- eigrp_update_prefix_apply in eigrpd/eigrp_update.c: the filters of updates. The host's access
-- lists and prefix lists are a parameter.
use eigrpd.Base.{ℕ, Bool, true, false, Option, none, some, if◌then◌else◌}
use eigrpd.State.{Dest}

-- `access_list_apply` and `prefix_list_apply`: whether a list denies a prefix.
pub record Filters : Type 0 where
  pub access_denies : ℕ → Dest → Bool
  pub prefix_denies : ℕ → Dest → Bool

-- `list[in]` and `prefix[in]` of the instance or of an interface, for one direction.
pub record FilterSet : Type 0 where
  pub list : Option ℕ
  pub prefix : Option ℕ

abbrev pub denied : (ℕ → Dest → Bool) → Option ℕ → Dest → Bool
denied denies none d = false
denied denies (some l) d = denies l d

-- eigrp_update_prefix_apply: the first list that denies the prefix decides.
unfoldable pub update_prefix_apply : Filters → FilterSet → FilterSet → Dest → Bool
update_prefix_apply f eigrp ei d =
    if denied f.access_denies eigrp.list d
    then true
    else if denied f.prefix_denies eigrp.prefix d
    then true
    else if denied f.access_denies ei.list d
    then true
    else denied f.prefix_denies ei.prefix d
