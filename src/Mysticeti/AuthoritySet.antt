-- ===== src/Mysticeti/AuthoritySet.antt =====
-- types.rs: `AuthoritySet`, a set of authorities below 128 as the bits of a `u128`.
use congestion_control.Prelude.{
  ℕ, ◌^◌, ◌≡◌, Bool, true, false, List, [], ◌∷◌, arith, ◌==◌, ◌||◌, if◌then◌else◌, bit_and, not,
}
use congestion_control.Mysticeti.Types.{count_up}
use congestion_control.Prelude.Bits.{bit_or, has, and-place, has-or_place}

abbrev pub AuthoritySet : Type 0
AuthoritySet = ℕ

-- The new set, and whether the authority was not in it. An authority is below 128.
unfoldable pub insert : ℕ → AuthoritySet → AuthoritySet × Bool
insert v s = if bit_and s (2 ^ v) == 2 ^ v then (s, false) else (bit_or s (2 ^ v), true)

kept : AuthoritySet → List ℕ → List ℕ
kept s [] = []
kept s (i ∷ is) = if bit_and s (2 ^ i) == 0 then kept s is else i ∷ kept s is

-- The authorities of the set, in order.
pub present : AuthoritySet → List ℕ
present s = kept s (count_up 0 128)

abbrev pub no_authority : AuthoritySet
no_authority = 0

pub insert-fresh : (v : ℕ) (s : AuthoritySet) → (insert v s).1 ≡ not (has s v)
unfolding insert
insert-fresh v s = rw (and-place v s) (ground arith)

pub insert_lem :
    (v : ℕ) (s : AuthoritySet) → (insert v s).0 ≡ (if has s v then s else bit_or s (2 ^ v))
unfolding insert
insert_lem v s = rw (and-place v s) (ground arith)

-- An insertion adds the authority, and keeps the others.
pub has-insert : (v : ℕ) (s : AuthoritySet) (w : ℕ) → has (insert v s).0 w ≡ (v == w || has s w)
has-insert v s w = ground (arith, insert_lem v s, has-or_place v s w)
