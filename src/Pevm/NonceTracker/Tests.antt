-- ===== src/Pevm/NonceTracker/Tests.antt =====
-- The nonces of three transactions of two senders, one of which is an authority of the second.
use congestion_control.Prelude.{
  ℕ, ◌≡◌, ◌<◌, ◌+◌, refl, List, [], ◌∷◌, none, some, arith, length, get_or,
}
use congestion_control.Prelude.Maps.{lookup, insert}
use congestion_control.Pevm.NonceTracker.{
  TxEnv, new, get_nonce, increase_nonce, increase_all, update_txenv_nonces, update_txenv_nonces_lem,
  IsInRange, bumps, with_nonce, first, no_tx,
}

abbrev tx : ℕ → List ℕ → TxEnv
tx caller authorities = record { caller = caller; nonce = none; authorities = authorities }

abbrev txs : List TxEnv
txs = tx 7 [] ∷ tx 8 (7 ∷ []) ∷ tx 7 [] ∷ []

run_functions : ℕ
unfolding new get_nonce increase_nonce increase_all update_txenv_nonces lookup insert
run_functions = 0

third_nonce : (get_or (update_txenv_nonces new txs).1 2 no_tx).nonce ≡ some 2
unfolding run_functions
third_nonce = refl

in_range : IsInRange new (λ a. bumps a txs)
unfolding new get_nonce lookup
in_range a = ground arith

update_txenv_nonces_lem_example :
    ((a : ℕ) → get_nonce (update_txenv_nonces new txs).0 a ≡ get_nonce new a + bumps a txs)
    × (length (update_txenv_nonces new txs).1 ≡ length txs)
    × ((i : ℕ)
        → i < length txs
        → get_or (update_txenv_nonces new txs).1 i no_tx
          ≡ with_nonce new (first i txs) (get_or txs i no_tx))
update_txenv_nonces_lem_example = update_txenv_nonces_lem new txs in_range
