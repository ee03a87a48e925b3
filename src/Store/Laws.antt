-- ===== src/Store/Laws.antt =====
-- What the clients of a counter store rely on: the store over a view of its counters.
use rlaas.Base.{String, ◌≡◌, ◌&&◌, if◌then◌else◌, ◌==◌}
use rlaas.Base.Int.{pos, ◌=ℤ◌}
use rlaas.Base.Int64.{Int64, ◌+w◌}
use rlaas.Base.Time.{Time, Duration}
use rlaas.Base.Exec.{ok}
use rlaas.Store.{CounterStore}

-- A read returns the counter. A swap happens exactly if the counter is the old value, and changes no
-- other counter.
pub record CounterLaws {S : Type 0} (c : CounterStore S) (value : S → String → Int64) : Type 0 where
  pub get_ok : (k : String) (s : S) → (c.get k s).0 ≡ ok (value s k)
  pub value-get : (k j : String) (s : S) → value (c.get k s).1 j ≡ value s j
  pub swap_ok :
      (k : String) (old new : Int64) (ttl : Duration) (s : S)
      → (c.compare_and_swap k old new ttl s).0 ≡ ok (value s k =ℤ old)
  pub value-swap :
      (k j : String) (old new : Int64) (ttl : Duration) (s : S)
      → value (c.compare_and_swap k old new ttl s).1 j
        ≡ (if (value s k =ℤ old) && (k == j) then new else value s j)

-- What the calls of a counter store do to the counters: those above, an increment that answers with the
-- sum in 64 bits, a set, a delete, after which the counter is 0, and calls for timestamps and leases, which leave
-- the counters alone.
pub record FlatLaws {S : Type 0} (c : CounterStore S) (value : S → String → Int64) : Type 0 where
  pub reads_and_swaps : CounterLaws c value
  pub increment_ok :
      (k : String) (v : Int64) (ttl : Duration) (s : S)
      → (c.increment k v ttl s).0 ≡ ok (value s k +w v)
  pub value-increment :
      (k j : String) (v : Int64) (ttl : Duration) (s : S)
      → value (c.increment k v ttl s).1 j ≡ (if k == j then value s k +w v else value s j)
  pub set_ok : (k : String) (v : Int64) (ttl : Duration) (s : S) → (c.set k v ttl s).0 ≡ ok tt
  pub value-set :
      (k j : String) (v : Int64) (ttl : Duration) (s : S)
      → value (c.set k v ttl s).1 j ≡ (if k == j then v else value s j)
  pub delete_ok : (k : String) (s : S) → (c.delete k s).0 ≡ ok tt
  pub value-delete :
      (k j : String) (s : S) → value (c.delete k s).1 j ≡ (if k == j then pos 0 else value s j)
  pub value-add_timestamp :
      (k j : String) (t : Time) (ttl : Duration) (s : S)
      → value (c.add_timestamp k t ttl s).1 j ≡ value s j
  pub value-count_after :
      (k j : String) (t : Time) (s : S) → value (c.count_after k t s).1 j ≡ value s j
  pub value-trim_before :
      (k j : String) (t : Time) (s : S) → value (c.trim_before k t s).1 j ≡ value s j
  pub value-acquire_lease :
      (k j : String) (n : Int64) (ttl : Duration) (s : S)
      → value (c.acquire_lease k n ttl s).1 j ≡ value s j
  pub value-release_lease : (k j : String) (s : S) → value (c.release_lease k s).1 j ≡ value s j
