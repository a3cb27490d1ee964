-- ===== src/Api/Broadcast/Race.antt =====
-- The calls of Send and of Close of pkg/api/progress.go.
use existora2pg.Api.Broadcast.{
  Channel, subscribe, unsubscribe, receive, listens, close, has_subscribers, snapshot, offer,
  deliver, send,
}
use existora2pg.Api.Events.{ProgressEvent}
use existora2pg.Prelude.{
  subst, ℕ, zero, suc, ◌≡◌, refl, Bool, true, ◌&&◌, not, Text, List, [], ◌∷◌, none, some, map,
  if◌then◌else◌, All, All-append, arith,
}

-- A channel that is in the set of its project is not closed.
abbrev pub is_sound : Channel → Bool
is_sound c = not (c.subscribed && c.closed)

abbrev pub IsSound : List Channel → Type 0
IsSound = All (λ c. is_sound c ≡ true)

-- The channels that a sequence of complete calls, with listeners that receive, leads to.
pub data Reachable : List Channel → Type 0 where
  started : Reachable []
  subscribes : {cs : List Channel} (p : Text) → Reachable cs → Reachable (subscribe p cs)
  unsubscribes : {cs : List Channel} (i : ℕ) → Reachable cs → Reachable (unsubscribe i cs)
  receives : {cs : List Channel} (i : ℕ) → Reachable cs → Reachable (receive i cs).1
  closes : {cs : List Channel} (p : Text) → Reachable cs → Reachable (close p cs)
  sends :
      {cs ds : List Channel} (p : Text) (e : ProgressEvent)
      → Reachable cs
      → send p e cs ≡ some ds
      → Reachable ds

unsubscribe-IsSound : (i : ℕ) (cs : List Channel) → IsSound cs → IsSound (unsubscribe i cs)
unfolding unsubscribe
unsubscribe-IsSound i [] h = tt
unsubscribe-IsSound zero (c ∷ cs) h = (refl, h.1)
unsubscribe-IsSound (suc i) (c ∷ cs) h = (h.0, unsubscribe-IsSound i cs h.1)

receive-IsSound : (i : ℕ) (cs : List Channel) → IsSound cs → IsSound (receive i cs).1
unfolding receive
receive-IsSound i [] h = tt
receive-IsSound zero (c ∷ cs) h = (h.0, h.1)
receive-IsSound (suc i) (c ∷ cs) h = (h.0, receive-IsSound i cs h.1)

close-IsSound : (p : Text) (cs : List Channel) → IsSound cs → IsSound (close p cs)
unfolding close
close-IsSound p [] h = tt
close-IsSound p (c ∷ cs) h = (ground (arith, h.0), close-IsSound p cs h.1)

abbrev delivered : Text → ProgressEvent → Channel → Channel
delivered p e c = if listens p c then offer e c else c

send_sound :
    (p : Text) (e : ProgressEvent) (cs : List Channel)
    → IsSound cs
    → send p e cs ≡ some (map (delivered p e) cs)
unfolding send deliver snapshot
send_sound p e [] h = refl
send_sound p e (c ∷ cs) h = ground (arith, h.0, send_sound p e cs h.1)

delivered-IsSound :
    (p : Text) (e : ProgressEvent) (cs : List Channel)
    → IsSound cs
    → IsSound (map (delivered p e) cs)
delivered-IsSound p e [] h = tt
delivered-IsSound p e (c ∷ cs) h = (ground (arith, h.0), delivered-IsSound p e cs h.1)

Reachable-IsSound : (cs : List Channel) → Reachable cs → IsSound cs
unfolding subscribe
Reachable-IsSound _ started = tt
Reachable-IsSound _ (subscribes {cs} p r) =
    All-append (λ c. is_sound c ≡ true) cs _ (Reachable-IsSound cs r) (refl, tt)
Reachable-IsSound _ (unsubscribes {cs} i r) = unsubscribe-IsSound i cs (Reachable-IsSound cs r)
Reachable-IsSound _ (receives {cs} i r) = receive-IsSound i cs (Reachable-IsSound cs r)
Reachable-IsSound _ (closes {cs} p r) = close-IsSound p cs (Reachable-IsSound cs r)
Reachable-IsSound ds (sends {cs} p e r s) =
    let sound = Reachable-IsSound cs r in
    let same : map (delivered p e) cs ≡ ds = cc (s, send_sound p e cs sound) in
    subst IsSound same (delivered-IsSound p e cs sound)

-- Whatever the listeners have received, as long as no call comes between its two halves, Send does
-- not panic: each listener of the project gets the event behind those in its channel, or not at
-- all where the channel holds 64, and the other channels stay as they are.
pub Reachable-send :
    (cs : List Channel) (p : Text) (e : ProgressEvent)
    → Reachable cs
    → send p e cs ≡ some (map (λ c. if listens p c then offer e c else c) cs)
Reachable-send cs p e r = send_sound p e cs (Reachable-IsSound cs r)

-- Where Close comes between the two halves of Send, and the project has a listener, Send panics:
-- it sends on a channel that is closed.
pub deliver-close :
    (cs : List Channel) (p : Text) (e : ProgressEvent)
    → has_subscribers p cs ≡ true
    → deliver e (snapshot p cs) (close p cs) ≡ none
unfolding has_subscribers deliver snapshot close
deliver-close [] p e h = cc h
deliver-close (c ∷ cs) p e h = ground (arith, deliver-close cs p e)
