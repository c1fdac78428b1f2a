-- ===== src/Sse/Hub.antt =====
-- `Hub` of internal/sse/hub.go. A channel is an address in a store, since the hub and its owner
-- share it; `clients` lists the keys of the map in some order. Every method holds the mutex
-- throughout, so methods run one after the other.
pub mod Publish
pub mod World
pub mod Steps
pub mod Streams
pub mod Abstract
use pulse_monitor.Prelude.{
  ℕ, Bool, true, false, ◌&&◌, not, List, [], ◌∷◌, ◌++◌, Option, none, some, length, ltb, ◌==◌,
  if◌then◌else◌,
}
use pulse_monitor.Sse.Frame.{Event, frame}
use pulse_monitor.Text.{Text}

-- A buffered channel of frames, oldest first.
pub record Channel : Type 0 where
  pub capacity : ℕ
  pub buffer : List Text

pub record Hub : Type 0 where
  pub clients : List ℕ
  pub channels : ℕ → Channel

abbrev pub update : (ℕ → Channel) → ℕ → Channel → ℕ → Channel
update m c ch d = if d == c then ch else m d

unfoldable pub contains : ℕ → List ℕ → Bool
contains c [] = false
contains c (d ∷ ds) = if d == c then true else contains c ds

unfoldable pub remove : ℕ → List ℕ → List ℕ
remove c [] = []
remove c (d ∷ ds) = let rest = remove c ds in if d == c then rest else d ∷ rest

-- `New`: no client. The channels are there before any of them is subscribed.
unfoldable pub new : (ℕ → Channel) → Hub
new channels = record { clients = []; channels = channels }

-- Setting a key that the map has changes nothing.
unfoldable pub subscribe : ℕ → Hub → Hub
unfolding contains
subscribe c h = if contains c h.clients then h else record h { clients = c ∷ h.clients }

unfoldable pub unsubscribe : ℕ → Hub → Hub
unfolding remove
unsubscribe c h = record h { clients = remove c h.clients }

-- `select { case ch <- frame: default: }`: a full buffer drops the frame.
unfoldable pub offer : Text → Channel → Channel
offer f ch =
    if ltb (length ch.buffer) ch.capacity then record ch { buffer = ch.buffer ++ f ∷ [] } else ch

-- The loop `for ch := range h.clients`.
unfoldable pub offer_all : Text → List ℕ → (ℕ → Channel) → ℕ → Channel
offer_all f [] m = m
offer_all f (c ∷ cs) m = offer_all f cs (update m c (offer f (m c)))

unfoldable pub publish : Event → Hub → Hub
unfolding offer_all
publish e h = record h { channels = offer_all (frame e) h.clients h.channels }

-- `<-ch` by the owner of the channel, where a frame is there to be had.
abbrev pub take_first : Channel → List Text → Channel × Option Text
take_first ch [] = (ch, none)
take_first ch (f ∷ fs) = (record ch { buffer = fs }, some f)

unfoldable pub receive : ℕ → Hub → Hub × Option Text
receive c h =
    let (ch, f) = take_first (h.channels c) (h.channels c).buffer in
    (record h { channels = update h.channels c ch }, f)
