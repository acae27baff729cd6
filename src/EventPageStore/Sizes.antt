-- ===== src/EventPageStore/Sizes.antt =====
-- Sums and owners over the entries of services/event_page_store.py, under each update of the dict.
use scrap_monitoring_backend.Base.{
  ℕ, ◌+◌, ◌≤◌, ◌≡◌, true, List, [], ◌∷◌, ◌++◌, arith, is_some, Ident, length,
}
use scrap_monitoring_backend.Base.Dict.{Dict, lookup, erase, Distinct, erase_absent}
use scrap_monitoring_backend.EventPageStore.{FrozenEventList, size_of, owned_keys}

abbrev pub Entries : Type 0
Entries = Dict FrozenEventList

-- The bytes that the entries account for.
unfoldable pub total : Entries → ℕ
total [] = 0
total ((k, v) ∷ d) = v.size + total d

pub total-append : (d e : Entries) → total (d ++ e) ≡ total d + total e
unfolding total
total-append [] e = omega arith
total-append ((k, v) ∷ d) e = omega (arith, total-append d e)

pub total-erase :
    (k : Ident) (d : Entries) → Distinct d → total (erase k d) + size_of (lookup k d) ≡ total d
unfolding total lookup erase
total-erase k [] h = omega arith
total-erase k ((j, w) ∷ d) h = ground (arith, total-erase k d h.1, erase_absent k d)

pub owned_keys-append :
    (o : Ident) (d e : Entries)
    → length (owned_keys o (d ++ e)) ≡ length (owned_keys o d) + length (owned_keys o e)
unfolding owned_keys
owned_keys-append o [] e = omega arith
owned_keys-append o ((k, v) ∷ d) e = ground (arith, owned_keys-append o d e)

-- The first owned key is there.
owned_keys-head :
    (o k : Ident) (ks : List Ident) (d : Entries)
    → owned_keys o d ≡ k ∷ ks
    → is_some (lookup k d) ≡ true
unfolding owned_keys lookup
owned_keys-head o k ks [] e = ground arith
owned_keys-head o k ks ((j, v) ∷ d) e = ground (arith, owned_keys-head o k ks d)

-- Dropping the first owned key leaves the others.
pub owned_keys-erase :
    (o k : Ident) (ks : List Ident) (d : Entries)
    → Distinct d
    → owned_keys o d ≡ k ∷ ks
    → owned_keys o (erase k d) ≡ ks
unfolding owned_keys erase
owned_keys-erase o k ks [] h e = ground arith
owned_keys-erase o k ks ((j, v) ∷ d) h e =
    ground (arith, owned_keys-erase o k ks d h.1, owned_keys-head o k ks d, erase_absent k d)

pub length-owned_keys-erase :
    (o k : Ident) (d : Entries) → length (owned_keys o (erase k d)) ≤ length (owned_keys o d)
unfolding owned_keys erase
length-owned_keys-erase o k [] = omega arith
length-owned_keys-erase o k ((j, v) ∷ d) = ground (arith, length-owned_keys-erase o k d)

pub length-erase : (k : Ident) (d : Entries) → length (erase k d) ≤ length d
unfolding erase
length-erase k [] = omega arith
length-erase k ((j, v) ∷ d) = ground (arith, length-erase k d)
