-- ===== src/Engine/Pool.antt =====
-- crates/nzbd-engine/src/pool.rs: the adaptive pipeline depth of a connection, and the tracker of
-- which connections have taken up a budget. `ok_run` is a `usize` that no run of articles fills.
pub mod Depth
pub mod Budget
mod Scenarios
use nzbd.Prelude.{
  ℕ, zero, suc, ◌+◌, ◌*◌, ◌/◌, max, Bool, true, false, not, ◌&&◌, ◌||◌, List, [], ◌∷◌,
  if◌then◌else◌, ltb, leb, ◌==◌, any, select, length,
}
use nzbd.Types.Job.{ServerId}

pub record AdaptiveDepth : Type 0 where
  pub cur : ℕ
  pub top : ℕ
  pub ok_run : ℕ

unfoldable pub new_depth : ℕ → AdaptiveDepth
new_depth n = let top = max n 1 in record { cur = (top + 1) / 2; top = top; ok_run = 0 }

abbrev pub get : AdaptiveDepth → ℕ
get d = d.cur

unfoldable pub on_success : ℕ → AdaptiveDepth → AdaptiveDepth
on_success n d =
    let run = d.ok_run + n in
    if ltb d.cur d.top && leb (d.cur * 4) run
    then record d { cur = d.cur + 1; ok_run = 0 }
    else record d { ok_run = run }

unfoldable pub on_error : AdaptiveDepth → AdaptiveDepth
on_error d = record d { cur = max (d.cur / 2) 1; ok_run = 0 }

-- What a connection tells its controller: articles that completed, or a failure of the connection.
pub data DepthEvent : Type 0 where
  completed : ℕ → DepthEvent
  broke : DepthEvent

unfoldable pub on_event : DepthEvent → AdaptiveDepth → AdaptiveDepth
unfolding on_success on_error
on_event (completed n) d = on_success n d
on_event broke d = on_error d

unfoldable pub on_events : List DepthEvent → AdaptiveDepth → AdaptiveDepth
unfolding on_event
on_events [] d = d
on_events (e ∷ es) d = on_events es (on_event e d)

-- A connection of a server's pool: its server and its index.
abbrev pub Connection : Type 0
Connection = ServerId × ℕ

abbrev pub same_connection : Connection → Connection → Bool
same_connection a b = a.0 == b.0 && a.1 == b.1

abbrev pub Seen : Type 0
Seen = List (ℕ × List Connection)

pub record BudgetTracker : Type 0 where
  pub expected : ℕ
  pub seen : Seen

abbrev pub new_tracker : ℕ → BudgetTracker
new_tracker expected = record { expected = expected; seen = [] }

-- `HashSet::insert`.
unfoldable pub put_connection : Connection → List Connection → List Connection
put_connection c l = if any (same_connection c) l then l else c ∷ l

-- `entry(generation).or_default().insert(..)`.
unfoldable pub note : ℕ → Connection → Seen → Seen
unfolding put_connection
note generation c [] = (generation, put_connection c []) ∷ []
note generation c ((g, l) ∷ m) =
    let rest = note generation c m in
    if g == generation then (g, put_connection c l) ∷ m else (g, l) ∷ rest

unfoldable pub acknowledge : ℕ → Connection → BudgetTracker → BudgetTracker
unfolding note
acknowledge generation c t = record t {
  seen = select (λ e. leb generation (e.0 + 2)) (note generation c t.seen);
}

unfoldable pub seen_of : ℕ → Seen → List Connection
seen_of generation [] = []
seen_of generation ((g, l) ∷ m) =
    let rest = seen_of generation m in if g == generation then l else rest

-- The test on which `wait_for` returns. A missing generation counts as an empty set, which is enough
-- for no tracker that expects a connection.
unfoldable pub is_ready : ℕ → BudgetTracker → Bool
unfolding seen_of
is_ready generation t = t.expected == 0 || leb t.expected (length (seen_of generation t.seen))
