-- ===== src/Dashboard/Broadcasts.antt =====
-- Several events that are published one after the other.
use mathlib.Core.List.{append_assoc, append-nil}
use pulse_monitor.Prelude.{
  ℕ, ◌+◌, ◌≤◌, ◌≡◌, refl, sym, ap, ◌∙◌, true, List, [], ◌∷◌, ◌++◌, map, arith, length,
  length-append, subst,
}
use pulse_monitor.Sse.Frame.{Event, frame}
use pulse_monitor.Sse.Hub.Publish.{IsKeySet, publish_lem}
use pulse_monitor.Sse.Hub.{Channel, Hub, contains, offer, publish}
use pulse_monitor.Text.{Text}

abbrev pub publish_all : List Event → Hub → Hub
publish_all [] h = h
publish_all (e ∷ es) h = publish_all es (publish e h)

pub publish_all-append :
    (ds es : List Event) (h : Hub) → publish_all (ds ++ es) h ≡ publish_all es (publish_all ds h)
publish_all-append [] es h = refl
publish_all-append (d ∷ ds) es h = publish_all-append ds es (publish d h)

offer-room :
    (f : Text) (ch : Channel)
    → length ch.buffer + 1 ≤ ch.capacity
    → offer f ch ≡ record ch { buffer = ch.buffer ++ f ∷ [] }
unfolding offer
offer-room f ch h = ground arith

pub publish_all-channel :
    (es : List Event) (h : Hub) (c : ℕ)
    → IsKeySet h.clients
    → contains c h.clients ≡ true
    → length (h.channels c).buffer + length es ≤ (h.channels c).capacity
    → (publish_all es h).channels c
      ≡ record (h.channels c) { buffer = (h.channels c).buffer ++ map frame es }
publish_all-channel [] h c k i room =
    ap (λ b. record (h.channels c) { buffer = b }) (sym (append-nil _))
publish_all-channel (e ∷ es) h c k i room =
    let (clients, channels) = publish_lem e h k in
    let now : (publish e h).channels c
        ≡ record (h.channels c) { buffer = (h.channels c).buffer ++ frame e ∷ [] } =
      channels c ∙ rw i (offer-room (frame e) (h.channels c) (omega arith)) in
    publish_all-channel es (publish e h) c (subst IsKeySet (sym clients) k)
      (ap (contains c) clients ∙ i)
      (subst (λ (ch : Channel). length ch.buffer + length es ≤ ch.capacity) (sym now)
        (omega (arith, length-append (h.channels c).buffer (frame e ∷ []))))
    ∙ ap (λ (ch : Channel). record ch { buffer = ch.buffer ++ map frame es }) now
    ∙ ap (λ b. record (h.channels c) { buffer = b })
        (append_assoc (h.channels c).buffer (frame e ∷ []) (map frame es))
