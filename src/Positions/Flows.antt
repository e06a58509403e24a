-- ===== src/Positions/Flows.antt =====
-- The order flows that run between the locked blocks of services/order_service.py, as a list of
-- keys, each with what its flow has done so far.
use crypto_trading_system.Base.{
  Bool, Bool-cases, Option, [], arith, false, if◌then◌else◌, inl, inr, list_eq, nat_eq, none,
  option_eq, refl, some, true, ℕ, ◌&&◌, ◌+◌, ◌<◌, ◌==◌, ◌||◌, ◌∷◌, ◌≡◌,
}
use crypto_trading_system.Base.Dict.{Dict, lookup}
use crypto_trading_system.Positions.{PositionKey, position_key_beq_iff, position_key_eq}

-- `process_signal` ends with another block than the other flows.
pub data Origin : Type 0 where
  from_signal from_block : Origin

-- An entry has stored its position or not yet, an exit has written its fill or not yet.
pub data Flow : Type 0 where
  entering entered : Flow
  exiting exited_flow : Origin → Flow

abbrev pub is_entry : Flow → Bool
is_entry entering = true
is_entry entered = true
is_entry (exiting o) = false
is_entry (exited_flow o) = false

abbrev pub is_exiting : Option Flow → Bool
is_exiting (some (exiting o)) = true
is_exiting (some (exited_flow o)) = false
is_exiting (some entering) = false
is_exiting (some entered) = false
is_exiting none = false

abbrev pub Flows : Type 0
Flows = Dict PositionKey Flow

-- How many flows run for a key.
unfoldable pub running : PositionKey → Flows → ℕ
running k [] = 0
running k ((j, f) ∷ fs) = (if j == k then 1 else 0) + running k fs

-- An entry runs for the key.
unfoldable pub entry_runs : PositionKey → Flows → Bool
entry_runs k [] = false
entry_runs k ((j, f) ∷ fs) = (j == k && is_entry f) || entry_runs k fs

-- The flow of the key is over.
unfoldable pub end_flow : PositionKey → Flows → Flows
end_flow k [] = []
end_flow k ((j, f) ∷ fs) = if j == k then fs else (j, f) ∷ end_flow k fs

pub running-end_flow :
    (k j : PositionKey) (f : Flow) (fs : Flows)
    → lookup k fs ≡ some f
    → running j fs ≡ running j (end_flow k fs) + (if k == j then 1 else 0)
unfolding running end_flow
running-end_flow k j f [] h = absurd (cc)
running-end_flow k j f ((i, g) ∷ fs) h = elim (Bool-cases (i == k)) [
  | inl same ↦ let e = (position_key_beq_iff i k).0 same in rw same (rw e (omega arith))
  | inr other ↦
      (let h' : lookup k fs ≡ some f = rw other at h in
        rw other (omega (arith, running-end_flow k j f fs h')))
]

pub entry_runs-idle : (k : PositionKey) (fs : Flows) → running k fs ≡ 0 → entry_runs k fs ≡ false
unfolding running entry_runs
entry_runs-idle k [] h = refl
entry_runs-idle k ((i, g) ∷ fs) h = ground (arith, entry_runs-idle k fs)

pub lookup-idle : (k : PositionKey) (fs : Flows) → running k fs ≡ 0 → lookup k fs ≡ none
unfolding running
lookup-idle k [] h = refl
lookup-idle k ((i, g) ∷ fs) h = ground (arith, lookup-idle k fs)

pub running-lookup :
    (k : PositionKey) (f : Flow) (fs : Flows) → lookup k fs ≡ some f → 0 < running k fs
unfolding running
running-lookup k f [] h = absurd (cc)
running-lookup k f ((i, g) ∷ fs) h = ground (arith, running-lookup k f fs)

-- The flow of a key that runs once tells whether an entry runs.
pub entry_runs-single :
    (k : PositionKey) (f : Flow) (fs : Flows)
    → lookup k fs ≡ some f
    → running k fs ≡ 1
    → entry_runs k fs ≡ is_entry f
unfolding running entry_runs
entry_runs-single k f [] h r = absurd (cc)
entry_runs-single k f ((i, g) ∷ fs) h r = elim (Bool-cases (i == k)) [
  | inl same ↦
      (let h' : g ≡ f = ground (arith, same, h) in
        let z : running k fs ≡ 0 = ground (arith, same, r) in
        rw (same, entry_runs-idle k fs z, h') (ground arith))
  | inr other ↦
      (let h' : lookup k fs ≡ some f = rw other at h in
        let r' : running k fs ≡ 1 = ground (arith, other, r) in
        rw other (entry_runs-single k f fs h' r'))
]

pub entry_runs-end_flow :
    (k j : PositionKey) (fs : Flows)
    → (k == j) ≡ false
    → entry_runs j (end_flow k fs) ≡ entry_runs j fs
unfolding entry_runs end_flow
entry_runs-end_flow k j [] h = refl
entry_runs-end_flow k j ((i, g) ∷ fs) h = elim (Bool-cases (i == k)) [
  | inl same ↦ let e = (position_key_beq_iff i k).0 same in rw same (rw (e, h) refl)
  | inr other ↦ rw (other, entry_runs-end_flow k j fs h) refl
]

pub lookup-end_flow :
    (k j : PositionKey) (fs : Flows) → (k == j) ≡ false → lookup j (end_flow k fs) ≡ lookup j fs
unfolding end_flow
lookup-end_flow k j [] h = refl
lookup-end_flow k j ((i, g) ∷ fs) h = elim (Bool-cases (i == k)) [
  | inl same ↦ let e = (position_key_beq_iff i k).0 same in rw same (rw (e, h) refl)
  | inr other ↦ rw (other, lookup-end_flow k j fs h) refl
]
