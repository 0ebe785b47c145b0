-- ===== src/Quorum.antt =====
-- The stake views that aggregator.py is given, and the quorum that both of its classes compute.
use based_ai.Prelude.{ℕ, ◌+◌, ◌*◌, ◌/◌, ◌≤◌, ◌↔◌, List, map, arith, sum}
use based_ai.Prelude.Int.{ℤ}
use based_ai.Prelude.Text.{Str}

-- `stake_of(brain_id, address)` and `total_stake(brain_id)`: `uint256` views, read at one moment. The
-- code makes a call to the node for each; here none of them raises, and they answer alike throughout
-- one operation.
pub record Stakes : Type 0 where
  pub stake_of : ℤ → Str → ℕ
  pub total_stake : ℤ → ℕ

abbrev pub min_quorum_bps : ℕ
min_quorum_bps = 5001

-- `(total * min_quorum_bps + 9_999) // 10_000`
unfoldable pub needed : ℕ → ℕ → ℕ
needed total bps = (total * bps + 9999) / 10000

-- `sum(stake_of(brain_id, s) for s in signers)`
abbrev pub stake_sum : Stakes → ℤ → List Str → ℕ
stake_sum st brain_id signers = sum (map (st.stake_of brain_id) signers)

-- Rounding up loses nothing: a stake reaches the rounded bound exactly when it reaches the share.
pub needed-le_iff :
    (total bps stake : ℕ) → (needed total bps ≤ stake) ↔ (total * bps ≤ stake * 10000)
unfolding needed
needed-le_iff total bps stake = (λ h. omega arith, λ h. omega arith)
