-- ===== src/Pevm/NonceTracker.antt =====
-- pevm/crates/pevm/src/utils/nonce_tracker.rs: the nonces of reordered transactions.
mod Tests
use congestion_control.Prelude.{
  ℕ, zero, suc, ◌+◌, ◌%◌, ◌^◌, ◌≡◌, ◌<◌, ◌≤◌, refl, ap, ◌∙◌, Bool, List, [], ◌∷◌, ◌++◌, Option,
  none, some, arith, ◌==◌, bit, count, count-append, length, if◌then◌else◌, get_or,
}
use congestion_control.Prelude.Maps.{Map, nat_eq, lookup, insert, lookup-insert, has_key}

-- Addresses are numbers.
pub record NonceTracker : Type 0 where
  pub nonces : Map ℕ ℕ

-- What the tracker reads and writes of a transaction. The authorities that could not be recovered are
-- left out.
pub record TxEnv : Type 0 where
  pub caller : ℕ
  pub nonce : Option ℕ
  pub authorities : List ℕ

unfoldable pub new : NonceTracker
new = record { nonces = [] }

-- The loop over the callers, in any order; `basic` is what the storage says of an account's nonce.
unfoldable pub record_all : (ℕ → Option ℕ) → List ℕ → NonceTracker → NonceTracker
record_all basic [] t = t
record_all basic (a ∷ rest) t = record_all basic rest (
    if has_key a t.nonces
    then t
    else (elim (basic a) [ none ↦ t | some n ↦ record { nonces = insert a n t.nonces } ]))

abbrev callers : List TxEnv → List ℕ
callers [] = []
callers (tx ∷ txs) = tx.caller ∷ callers txs

unfoldable pub record_from_prestate : (ℕ → Option ℕ) → List TxEnv → NonceTracker → NonceTracker
record_from_prestate basic txs t = record_all basic (callers txs) t

unfoldable pub get_nonce : NonceTracker → ℕ → ℕ
get_nonce t a = elim (lookup a t.nonces) [ none ↦ 0 | some n ↦ n ]

unfoldable pub set_nonce : NonceTracker → ℕ → ℕ → NonceTracker
set_nonce t a n = record { nonces = insert a n t.nonces }

-- Addition on u64, which wraps.
unfoldable pub increase_nonce : NonceTracker → ℕ → NonceTracker
increase_nonce t a = record { nonces = insert a ((get_nonce t a + 1) % 2 ^ 64) t.nonces }

unfoldable pub increase_all : NonceTracker → List ℕ → NonceTracker
increase_all t [] = t
increase_all t (a ∷ rest) = increase_all (increase_nonce t a) rest

-- The loop of `update_txenv_nonces`: the tracker and the transactions as they are left.
unfoldable pub update_txenv_nonces : NonceTracker → List TxEnv → NonceTracker × List TxEnv
update_txenv_nonces t [] = (t, [])
update_txenv_nonces t (tx ∷ txs) =
    let t' = increase_all (increase_nonce t tx.caller) tx.authorities in
    let rest = update_txenv_nonces t' txs in
    (rest.0, record tx { nonce = some (get_nonce t tx.caller) } ∷ rest.1)

-- How often the execution of the transactions bumps the nonce of an address.
abbrev pub bumps : ℕ → List TxEnv → ℕ
bumps a [] = 0
bumps a (tx ∷ txs) = bit (tx.caller == a) + count a tx.authorities + bumps a txs

get_nonce-increase :
    (t : NonceTracker) (a b : ℕ)
    → get_nonce (increase_nonce t a) b
      ≡ (if a == b then (get_nonce t b + 1) % 2 ^ 64 else get_nonce t b)
unfolding get_nonce increase_nonce
get_nonce-increase t a b = ground (arith, lookup-insert a b ((get_nonce t a + 1) % 2 ^ 64) t.nonces)

-- Below the wrap-around.
abbrev pub IsInRange : NonceTracker → (ℕ → ℕ) → Type 0
IsInRange t added = (a : ℕ) → get_nonce t a + added a < 2 ^ 64

mod_small : (n : ℕ) → n < 2 ^ 64 → n % 2 ^ 64 ≡ n
mod_small n h = omega arith

increase_step :
    (t : NonceTracker) (a b : ℕ)
    → get_nonce t b + bit (a == b) < 2 ^ 64
    → get_nonce (increase_nonce t a) b ≡ get_nonce t b + bit (a == b)
increase_step t a b h =
    let e = get_nonce-increase t a b in let m = mod_small (get_nonce t b + 1) in ground arith

increase_all-nonces :
    (t : NonceTracker) (addrs : List ℕ) (b : ℕ)
    → get_nonce t b + count b addrs < 2 ^ 64
    → get_nonce (increase_all t addrs) b ≡ get_nonce t b + count b addrs
unfolding increase_all
increase_all-nonces t [] b h = omega arith
increase_all-nonces t (a ∷ rest) b h =
    let s = increase_step t a b (omega arith) in
    omega (arith, increase_all-nonces (increase_nonce t a) rest b (omega arith))

step_nonces :
    (t : NonceTracker) (tx : TxEnv) (b : ℕ)
    → get_nonce t b + (bit (tx.caller == b) + count b tx.authorities) < 2 ^ 64
    → get_nonce (increase_all (increase_nonce t tx.caller) tx.authorities) b
      ≡ get_nonce t b + (bit (tx.caller == b) + count b tx.authorities)
step_nonces t tx b h =
    let s = increase_step t tx.caller b (omega arith) in
    omega (arith, increase_all-nonces (increase_nonce t tx.caller) tx.authorities b (omega arith))

-- The first `i` transactions.
abbrev pub first : ℕ → List TxEnv → List TxEnv
first zero txs = []
first (suc i) [] = []
first (suc i) (tx ∷ txs) = tx ∷ first i txs

abbrev pub no_tx : TxEnv
no_tx = record { caller = 0; nonce = none; authorities = [] }

all_nonces :
    (t : NonceTracker) (txs : List TxEnv)
    → IsInRange t (λ a. bumps a txs)
    → (a : ℕ) → get_nonce (update_txenv_nonces t txs).0 a ≡ get_nonce t a + bumps a txs
unfolding update_txenv_nonces
all_nonces t [] r a = omega arith
all_nonces t (tx ∷ txs) r a =
    let step = λ (b : ℕ). step_nonces t tx b (omega (arith, r b)) in
    let t' = increase_all (increase_nonce t tx.caller) tx.authorities in
    omega (arith, all_nonces t' txs (λ b. omega (arith, step b, r b)) a, step a)

length-update :
    (t : NonceTracker) (txs : List TxEnv) → length (update_txenv_nonces t txs).1 ≡ length txs
unfolding update_txenv_nonces
length-update t [] = refl
length-update t (tx ∷ txs) =
    ap suc (length-update (increase_all (increase_nonce t tx.caller) tx.authorities) txs)

abbrev pub with_nonce : NonceTracker → List TxEnv → TxEnv → TxEnv
with_nonce t before tx = record tx { nonce = some (get_nonce t tx.caller + bumps tx.caller before) }

each_nonce :
    (t : NonceTracker) (txs : List TxEnv) (i : ℕ)
    → IsInRange t (λ a. bumps a txs)
    → i < length txs
    → get_or (update_txenv_nonces t txs).1 i no_tx ≡ with_nonce t (first i txs) (get_or txs i no_tx)
unfolding update_txenv_nonces
each_nonce t [] i r h = elim h [ ]
each_nonce t (tx ∷ txs) zero r h =
    let z : get_nonce t tx.caller + 0 ≡ get_nonce t tx.caller = omega arith in ground arith
each_nonce t (tx ∷ txs) (suc i) r h =
    let step = λ (b : ℕ). step_nonces t tx b (omega (arith, r b)) in
    let t' = increase_all (increase_nonce t tx.caller) tx.authorities in
    let c = (get_or txs i no_tx).caller in
    let e : get_nonce t' c + bumps c (first i txs) ≡ get_nonce t c + bumps c (tx ∷ first i txs) =
      omega (arith, step c) in
    each_nonce t' txs i (λ b. omega (arith, step b, r b)) (omega arith)
    ∙ ap (λ n. record (get_or txs i no_tx) { nonce = some n }) e

-- Each transaction gets the tracked nonce of its caller, plus how often the transactions before it
-- bump that nonce, as senders or as authorities, and the tracker ends with all bumps added. No nonce
-- reaches the wrap-around.
pub update_txenv_nonces_lem :
    (t : NonceTracker) (txs : List TxEnv)
    → IsInRange t (λ a. bumps a txs)
    → ((a : ℕ) → get_nonce (update_txenv_nonces t txs).0 a ≡ get_nonce t a + bumps a txs)
      × (length (update_txenv_nonces t txs).1 ≡ length txs)
      × ((i : ℕ)
          → i < length txs
          → get_or (update_txenv_nonces t txs).1 i no_tx
            ≡ with_nonce t (first i txs) (get_or txs i no_tx))
update_txenv_nonces_lem t txs r =
    (all_nonces t txs r, length-update t txs, λ i h. each_nonce t txs i r h)
