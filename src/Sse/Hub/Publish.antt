-- ===== src/Sse/Hub/Publish.antt =====
-- What `Publish` does to each channel, and that the set of clients is one.
use mathlib.Core.Path.{fun_ext}
use pulse_monitor.Prelude.{
  ℕ, ◌≡◌, refl, sym, ◌∙◌, inl, inr, false, List, [], ◌∷◌, arith, ◌==◌, ==_iff, if◌then◌else◌,
  Bool-cases,
}
use pulse_monitor.Sse.Frame.{Event, frame}
use pulse_monitor.Sse.Hub.{Channel, Hub, update, contains, remove, offer, offer_all, publish}
use pulse_monitor.Text.{Text}

-- No key stands twice.
abbrev pub IsKeySet : List ℕ → Type 0
IsKeySet [] = Unit {0}
IsKeySet (c ∷ cs) = (contains c cs ≡ false) × IsKeySet cs

pub offer_all-channel :
    (f : Text) (c : ℕ) (cs : List ℕ) (m : ℕ → Channel)
    → IsKeySet cs
    → offer_all f cs m c ≡ (if contains c cs then offer f (m c) else m c)
unfolding offer_all contains
offer_all-channel f c [] m h = refl
offer_all-channel f c (d ∷ cs) m h = elim (Bool-cases (d == c)) [
  | inl e ↦
      rw (← (==_iff d c).0 e)
        (ground (arith, offer_all-channel f d cs (update m d (offer f (m d))) h.1))
  | inr e ↦ rw (offer_all-channel f c cs (update m d (offer f (m d))) h.1) (ground arith)
]

pub contains-remove :
    (c d : ℕ) (cs : List ℕ) → contains c (remove d cs) ≡ (if d == c then false else contains c cs)
unfolding contains remove
contains-remove c d [] = ground arith
contains-remove c d (x ∷ cs) = ground (arith, contains-remove c d cs)

pub remove-IsKeySet : (d : ℕ) (cs : List ℕ) → IsKeySet cs → IsKeySet (remove d cs)
unfolding remove
remove-IsKeySet d [] h = tt
remove-IsKeySet d (x ∷ cs) h = ground (arith, contains-remove x d cs, remove-IsKeySet d cs h.1)

-- Publish leaves the set of clients alone. The channel of every client gets the event's frame as
-- `offer` says: at the end of its buffer, or not at all if the buffer is full. Every other channel
-- is untouched.
pub publish_lem :
    (e : Event) (h : Hub)
    → IsKeySet h.clients
    → ((publish e h).clients ≡ h.clients)
      × ((c : ℕ)
          → (publish e h).channels c
            ≡ (if contains c h.clients then offer (frame e) (h.channels c) else h.channels c))
unfolding publish
publish_lem e h k = (refl, λ c. offer_all-channel (frame e) c h.clients h.channels k)

-- The order in which the loop of Publish meets the clients does not matter: two lists of the same
-- clients give every channel the same content.
publish_order :
    (e : Event) (cs ds : List ℕ) (m : ℕ → Channel)
    → IsKeySet cs
    → IsKeySet ds
    → ((c : ℕ) → contains c cs ≡ contains c ds)
    → (publish e (record { clients = cs; channels = m })).channels
      ≡ (publish e (record { clients = ds; channels = m })).channels
unfolding publish
publish_order e cs ds m hc hd same = fun_ext λ c.
    offer_all-channel (frame e) c cs m hc
    ∙ rw (same c) (sym (offer_all-channel (frame e) c ds m hd))
