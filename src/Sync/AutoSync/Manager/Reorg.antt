-- ===== src/Sync/AutoSync/Manager/Reorg.antt =====
-- `set_reverted` and `handle_on_reorg` of manager.rs.
use ionian_rust.Base.{
  ℕ, ◌<◌, ◌≤◌, ◌≡◌, refl, ap, sym, Bool, true, false, if◌then◌else◌, none, some, List, [], ◌∷◌, ltb,
  leb, ◌==◌, ◌||◌, arith, All, min, Bool-cases, inl, inr,
}
use ionian_rust.Sync.AutoSync.SyncStore.{get_tx_seq_range}
use ionian_rust.Sync.AutoSync.Manager.{Manager, u64_max, set_reverted, handle_on_reorg, new_manager}

-- The reversions of several transactions, one after the other.
abbrev pub revert_all : List ℕ → Manager → Manager
revert_all [] m = m
revert_all (r ∷ rs) m = revert_all rs (set_reverted m r).0

-- The lowest of a number and a list.
abbrev pub lowest : ℕ → List ℕ → ℕ
lowest n [] = n
lowest n (r ∷ rs) = lowest (min n r) rs

-- Whether one of the list is not above a number.
abbrev pub reaches : List ℕ → ℕ → Bool
reaches [] n = false
reaches (r ∷ rs) n = leb r n || reaches rs n

pub set_reverted-min :
    (m : Manager) (r : ℕ)
    → (set_reverted m r).0 ≡ record m { reverted_tx_seq = min m.reverted_tx_seq r }
unfolding set_reverted
set_reverted-min m r = elim (Bool-cases (leb m.reverted_tx_seq r)) [
  | inl e ↦
      let q : min m.reverted_tx_seq r ≡ m.reverted_tx_seq = ground (arith, e) in rw (e, q) refl
  | inr e ↦ let q : min m.reverted_tx_seq r ≡ r = ground (arith, e) in rw (e, q) refl
]

revert_all-lowest :
    (rs : List ℕ) (m : Manager)
    → revert_all rs m ≡ record m { reverted_tx_seq = lowest m.reverted_tx_seq rs }
revert_all-lowest [] m = refl
revert_all-lowest (r ∷ rs) m = rw (set_reverted-min m r) (revert_all-lowest rs _)

lowest-min : (a b : ℕ) (rs : List ℕ) → lowest (min a b) rs ≡ min a (lowest b rs)
lowest-min a b [] = refl
lowest-min a b (r ∷ rs) =
    let e : min (min a b) r ≡ min a (min b r) = omega arith in rw e (lowest-min a (min b r) rs)

lowest-reaches : (rs : List ℕ) (n u : ℕ) → leb (lowest u rs) n ≡ (leb u n || reaches rs n)
lowest-reaches [] n u = ground arith
lowest-reaches (r ∷ rs) n u = ground (arith, lowest-reaches rs n (min u r))

lowest_below : (rs : List ℕ) (n : ℕ) → lowest n rs ≤ n
lowest_below [] n = omega arith
lowest_below (r ∷ rs) n = omega (arith, lowest_below rs (min n r))

-- `handle_on_reorg` with the reverted number given.
handled :
    (m : Manager) (l : ℕ)
    → l < u64_max
    → handle_on_reorg (record m { reverted_tx_seq = l }) ≡ (
      record m { next_tx_seq = min m.next_tx_seq l; reverted_tx_seq = u64_max },
      if leb l m.next_tx_seq then some m.next_tx_seq else none,
    )
unfolding handle_on_reorg
handled m l h = elim (Bool-cases (leb l m.next_tx_seq)) [
  | inl e ↦
      let q : min m.next_tx_seq l ≡ l = ground (arith, e) in
      let n : (l == u64_max) ≡ false = ground (arith, h) in
      let g : ltb m.next_tx_seq l ≡ false = ground (arith, e) in rw (e, q, n, g) refl
  | inr e ↦
      let q : min m.next_tx_seq l ≡ m.next_tx_seq = ground (arith, e) in
      let n : (l == u64_max) ≡ false = ground (arith, h) in
      let g : ltb m.next_tx_seq l ≡ true = ground (arith, e) in rw (e, q, n, g) refl
]

-- Where no transaction was reverted before, `handle_on_reorg` after the reversion of some moves the
-- position back to the lowest of them if that is below it and leaves it else, clears the reversion,
-- and answers the old position when one of them is not above it; it changes nothing else.
pub handle_on_reorg-revert_all :
    (m : Manager) (rs : List ℕ)
    → m.reverted_tx_seq ≡ u64_max
    → All (λ r. r < u64_max) rs
    → handle_on_reorg (revert_all rs m) ≡ (
      record m { next_tx_seq = lowest m.next_tx_seq rs; reverted_tx_seq = u64_max },
      if reaches rs m.next_tx_seq then some m.next_tx_seq else none,
    )
unfolding handle_on_reorg
handle_on_reorg-revert_all m [] h v =
    let e : (m.reverted_tx_seq == u64_max) ≡ true = ground (arith, h) in
    rw e (ap (λ n. (record m { reverted_tx_seq = n }, none)) h)
handle_on_reorg-revert_all m (r ∷ rs) h (a, v) =
    let l : lowest m.reverted_tx_seq (r ∷ rs) < u64_max =
      omega (arith, h, a, lowest_below rs (min m.reverted_tx_seq r)) in
    rw (revert_all-lowest (r ∷ rs) m, handled m _ l, lowered)
      (ap
        (λ b. (
          record m { next_tx_seq = lowest m.next_tx_seq (r ∷ rs); reverted_tx_seq = u64_max },
          if b then some m.next_tx_seq else none,
        ))
        reached)
  where
    lowered : min m.next_tx_seq (lowest m.reverted_tx_seq (r ∷ rs)) ≡ lowest m.next_tx_seq (r ∷ rs)
    lowered =
        let e : min m.reverted_tx_seq r ≡ r = omega (arith, h, a) in
        rw e (sym (lowest-min m.next_tx_seq r rs))

    reached : leb (lowest m.reverted_tx_seq (r ∷ rs)) m.next_tx_seq ≡ reaches (r ∷ rs) m.next_tx_seq
    reached = ground (arith, h, a, lowest-reaches (r ∷ rs) m.next_tx_seq m.reverted_tx_seq)

-- The position that a reorganization moves back to is not stored: a node that is started again
-- after one was handled, before it moves on, takes up the position from before it.
pub restart_after_reorg :
    (m : Manager) (r : ℕ)
    → m.reverted_tx_seq ≡ u64_max
    → r ≤ m.next_tx_seq
    → r < u64_max
    → (get_tx_seq_range m.sync_store).0 ≡ some m.next_tx_seq
    → ((handle_on_reorg (set_reverted m r).0).0.next_tx_seq ≡ r)
      × ((new_manager (handle_on_reorg (set_reverted m r).0).0.sync_store).next_tx_seq
          ≡ m.next_tx_seq)
unfolding new_manager
restart_after_reorg m r h l u s =
    rw (set_reverted-min m r, handled m (min m.reverted_tx_seq r) (omega (arith, h, u)))
      (omega (arith, h, l, u), ground (arith, s))
