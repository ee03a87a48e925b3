-- ===== src/Store/Cache/Load.antt =====
-- `GetOrLoad` of internal/store/cache/policy_cache.go: concurrent callers who share the load of a namespace. A step is
-- what one caller does between two points where another can come in: a call of `Get` or `Set`, a section under
-- `sfMu`, the loader's call, `wg.Done` and the return from `wg.Wait`.
pub mod Single
use Prim.Native.Nat.{ℕ, suc}
use rlaas.Base.{String, List, [], ◌∷◌, ◌++◌, Bool, Option, none, some, ◌≡◌, ◌=ℕ◌, if◌then◌else◌}
use rlaas.Base.Maps.{Map, put, remove}
use rlaas.Base.Time.{Time}
use rlaas.Base.Exec.{Result, ok, err}
use rlaas.Base.Workers.{get_elem?, set_elem}
use rlaas.Model.{Policy}
use rlaas.Store.Cache.{PolicyCache, get, set}

abbrev pub Answer : Type 0
Answer = Result (List Policy)

-- Where a caller of a namespace stands; a call of the loader has a number, which stands for its `sfCall`.
pub data Caller : Type 0 where
  calling missed : String → Caller
  waiting loading : String → ℕ → Caller
  -- The loader has answered, the answer is in the cache if it is one, and `wg.Done` was called.
  answered stored closing : String → ℕ → Answer → Caller
  returned : String → Answer → Caller

pub record Flights : Type 0 where
  pub cache : PolicyCache
  pub sf_calls : Map ℕ
  pub next_call : ℕ
  pub done : ℕ → Option Answer
  pub callers : List Caller

unfoldable pub idle : PolicyCache → Flights
idle cache = record {
  cache = cache;
  sf_calls = λ ns. none;
  next_call = 0;
  done = λ c. none;
  callers = [];
}

-- The caller `i` goes on.
unfoldable pub moved : ℕ → Caller → Flights → Flights
unfolding set_elem
moved i p st = record st { callers = set_elem st.callers i p }

-- The call's answer is there.
unfoldable pub finished : ℕ → Answer → (ℕ → Option Answer) → ℕ → Option Answer
finished c r done k = if k =ℕ c then some r else done k

abbrev pub At : Flights → ℕ → Caller → Type 0
At st i p = get_elem? st.callers i ≡ some p

pub data Step (st : Flights) : Flights → Type 0 where
  -- `GetOrLoad` is called.
  enter : (ns : String) → Step st (record st { callers = st.callers ++ calling ns ∷ [] })
  hit :
      (i : ℕ) (ns : String) (now : Time) (policies : List Policy)
      → At st i (calling ns)
      → get now ns st.cache ≡ some policies
      → Step st (moved i (returned ns (ok policies)) st)
  miss :
      (i : ℕ) (ns : String) (now : Time)
      → At st i (calling ns)
      → get now ns st.cache ≡ none
      → Step st (moved i (missed ns) st)
  join :
      (i : ℕ) (ns : String) (c : ℕ)
      → At st i (missed ns)
      → st.sf_calls ns ≡ some c
      → Step st (moved i (waiting ns c) st)
  lead :
      (i : ℕ) (ns : String)
      → At st i (missed ns)
      → st.sf_calls ns ≡ none
      → Step st (record (moved i (loading ns st.next_call) st) {
        sf_calls = put st.sf_calls ns st.next_call;
        next_call = suc st.next_call;
      })
  load :
      (i : ℕ) (ns : String) (c : ℕ) (r : Answer)
      → At st i (loading ns c)
      → Step st (moved i (answered ns c r) st)
  store :
      (i : ℕ) (ns : String) (c : ℕ) (now : Time) (policies : List Policy)
      → At st i (answered ns c (ok policies))
      → Step st
          (record (moved i (stored ns c (ok policies)) st) { cache = set now ns policies st.cache })
  keep :
      (i : ℕ) (ns : String) (c : ℕ) (why : String)
      → At st i (answered ns c (err why))
      → Step st (moved i (stored ns c (err why)) st)
  wake_others :
      (i : ℕ) (ns : String) (c : ℕ) (r : Answer)
      → At st i (stored ns c r)
      → Step st (record (moved i (closing ns c r) st) { done = finished c r st.done })
  clean_up :
      (i : ℕ) (ns : String) (c : ℕ) (r : Answer)
      → At st i (closing ns c r)
      → Step st (record (moved i (returned ns r) st) { sf_calls = remove st.sf_calls ns })
  wake :
      (i : ℕ) (ns : String) (c : ℕ) (r : Answer)
      → At st i (waiting ns c)
      → st.done c ≡ some r
      → Step st (moved i (returned ns r) st)
  -- Another call of the cache, with `Invalidate`, `Set` or the sweep.
  other_call : (cache : PolicyCache) → Step st (record st { cache = cache })

pub data Reach (st : Flights) : Flights → Type 0 where
  here : Reach st st
  next : {u v : Flights} → Reach st u → Step u v → Reach st v
