-- ===== src/Api/EventHub.antt =====
-- crates/nzbd-api/src/eventhub.rs: the numbered event stream and its replay. A frame's rendered JSON
-- is the crate serde_json's; here its body is the event itself. The counters for metrics and the
-- number of open streams are left out, and so are identifiers as text. No process
-- lives to publish 2^64 events, at which the numbers would start again.
pub mod Numbered
mod Scenarios
use nzbd.Prelude.{
  ℕ, ◌+◌, ◌-◌, Bool, true, false, List, [], ◌∷◌, ◌++◌, Option, none, some, if◌then◌else◌, ◌==◌, ltb,
  length, select, is_empty, drop,
}
use nzbd.Types.Torrent.{Text}

abbrev pub ring_size : ℕ
ring_size = 1024

-- An event of the engine, or how many of them the pump missed.
pub data Body : Type 0 where
  rendered : Text → Body
  skipped : ℕ → Body

pub record SeqFrame : Type 0 where
  pub seq : ℕ
  pub name : Text
  pub body : Body

pub record EventId : Type 0 where
  pub boot : ℕ
  pub seq : ℕ

-- `sent` lists what the broadcast channel was given, the oldest first.
pub record EventHub : Type 0 where
  pub boot : ℕ
  pub next : ℕ
  pub ring : List SeqFrame
  pub sent : List SeqFrame

pub data Replay : Type 0 where
  live reset : Replay
  frames : List SeqFrame → Replay

unfoldable pub new_hub : ℕ → EventHub
new_hub boot = record { boot = boot; next = 1; ring = []; sent = [] }

abbrev pub push_back : SeqFrame → List SeqFrame → List SeqFrame
push_back f ring = if length ring == ring_size then drop 1 ring ++ f ∷ [] else ring ++ f ∷ []

abbrev pub frame : ℕ → Text → Body → SeqFrame
frame seq name body = record { seq = seq; name = name; body = body }

unfoldable pub publish_raw : Text → Body → EventHub → EventHub
publish_raw name body h = record h {
  next = h.next + 1;
  ring = push_back (frame h.next name body) h.ring;
  sent = h.sent ++ frame h.next name body ∷ [];
}

abbrev pub after_frames : List SeqFrame → Replay
after_frames [] = live
after_frames (f ∷ fs) = frames (f ∷ fs)

abbrev pub replay_ring : ℕ → ℕ → List SeqFrame → Replay
replay_ring last highest [] = if last == highest then live else reset
replay_ring last highest (oldest ∷ ring) =
    if ltb (last + 1) oldest.seq
    then reset
    else after_frames (select (λ (f : SeqFrame). ltb last f.seq) (oldest ∷ ring))

unfoldable pub replay : Option EventId → EventHub → Replay
replay none h = live
replay (some id) h =
    if id.boot == h.boot
    then if ltb (h.next - 1) id.seq then reset else replay_ring id.seq (h.next - 1) h.ring
    else reset

-- What the pump receives from the engine's channel: an event with its name, or word that it lagged.
pub data Received : Type 0 where
  event : Text → Text → Received
  lagged : ℕ → Received

unfoldable pub pump : Received → EventHub → EventHub
pump (event name text) h = publish_raw name (rendered text) h
pump (lagged n) h = publish_raw (b'l' ∷ b'a' ∷ b'g' ∷ b'g' ∷ b'e' ∷ b'd' ∷ []) (skipped n) h

unfoldable pub run : List Received → EventHub → EventHub
run [] h = h
run (r ∷ rs) h = run rs (pump r h)
