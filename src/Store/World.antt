-- ===== src/Store/World.antt =====
-- Other clients of a counter store. Each call of the store comes after what the others did since the
-- call before: the next of a list of their actions, any functions on the store's state.
use rlaas.Base.{List, [], ◌∷◌}
use mathlib.Core.Option
use rlaas.Base.Exec.{Exec}
use rlaas.Store.{CounterStore}

pub record World (S : Type 0) : Type 0 where
  pub state : S
  pub pending : List (S → S)

-- The state that the next call meets, and the actions that are left.
abbrev pub interrupted : {S : Type 0} → S → List (S → S) → S
interrupted s [] = s
interrupted s (f ∷ fs) = f s

abbrev pub later : {S : Type 0} → List (S → S) → List (S → S)
later [] = []
later (f ∷ fs) = fs

unfoldable pub act : {S A : Type 0} → Exec S A → Exec (World S) A
act m w =
    let (r, s) = m (interrupted w.state w.pending) in
    (r, record { state = s; pending = later w.pending })

-- The store as one client among others sees it.
unfoldable pub shared : {S : Type 0} → CounterStore S → CounterStore (World S)
shared c = record {
  increment = λ k v ttl. act (c.increment k v ttl);
  get = λ k. act (c.get k);
  set = λ k v ttl. act (c.set k v ttl);
  compare_and_swap = λ k old new ttl. act (c.compare_and_swap k old new ttl);
  delete = λ k. act (c.delete k);
  add_timestamp = λ k t ttl. act (c.add_timestamp k t ttl);
  count_after = λ k t. act (c.count_after k t);
  trim_before = λ k t. act (c.trim_before k t);
  acquire_lease = λ k n ttl. act (c.acquire_lease k n ttl);
  release_lease = λ k. act (c.release_lease k);
  ping = act c.ping;
  close = act c.close;
  atomic_timestamps =
      Option.map (λ f k cutoff limit cost t ttl. act (f k cutoff limit cost t ttl))
        c.atomic_timestamps;
}
