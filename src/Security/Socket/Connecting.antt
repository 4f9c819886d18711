-- ===== src/Security/Socket/Connecting.antt =====
-- What a call of connect leaves behind (SecureSocket.connect of zprocess/security.py).
use zprocess.Base.{
  ℕ, ◌≡◌, refl, sym, ap, ◌∙◌, inl, inr, Bool-cases, ◌&&◌, Bool, true, false, not, ◌||◌, Option,
  none, some, List, [], ◌∷◌, if◌then◌else◌, arith,
}
use mathlib.Core.Path.{subst}
use zprocess.Process.Interruptor.{Interruptor, is_free, subscribe, unsubscribe}
use zprocess.Process.Interruptor
use zprocess.Process.Queues.Outcomes.{
  IsEntered, subscribe_free, subscribe_blocked, unsubscribe_entered,
}
use zprocess.Security.{Ip, Library, gethostbyname}
use zprocess.Security.Socket.{
  Socket, Endpoint, inproc, tcp_to, proxied, other, Outcome, done, raised, waiting,
  insecure_connection, Poll, nothing, interruption, succeeded, failed, neither, open_tcp,
  open_proxied, configure_curve, bind_or_connect, await_success, finally, when_left,
  when_subscribed, and_then, connect_blocking, is_internal, permitted, connect_permitted, connect,
  polls_for, remaining, Result, deadline_of,
}

abbrev pub is_waiting : Outcome (Unit {0}) → Bool
is_waiting waiting = true
is_waiting outcome = false

abbrev pub is_insecure : Outcome (Unit {0}) → Bool
is_insecure (raised insecure_connection) = true
is_insecure outcome = false

-- The monitor is as it was, and the call has not been refused as insecure.
abbrev pub Keeps : Bool → Outcome (Unit {0}) × Socket → Type 0
Keeps monitored (outcome, s) = (s.monitored ≡ monitored) × (is_insecure outcome ≡ false)

-- The same, and the call is over.
abbrev pub Opens : Bool → Outcome (Unit {0}) × Socket → Type 0
Opens monitored (outcome, s) =
    (s.monitored ≡ monitored) × (is_insecure outcome ≡ false) × (is_waiting outcome ≡ false)

if-Opens :
    (b monitored : Bool) (x y : Outcome (Unit {0}) × Socket)
    → Opens monitored x
    → Opens monitored y
    → Opens monitored (if b then x else y)
if-Opens true monitored x y h k = h
if-Opens false monitored x y h k = k

if_monitored :
    (b : Bool) (s t : Socket)
    → s.monitored ≡ t.monitored
    → (if b then s else t).monitored ≡ t.monitored
if_monitored true s t h = h
if_monitored false s t h = refl

configure_curve-monitored :
    (server : Bool) (s : Socket) → (configure_curve server s).1.monitored ≡ s.monitored
unfolding configure_curve
configure_curve-monitored true s = refl
configure_curve-monitored false s = refl

open_tcp-Opens : (bind fails : Bool) (s : Socket) → Opens s.monitored (open_tcp bind fails s)
unfolding open_tcp
open_tcp-Opens bind fails s =
    let once = configure_curve-monitored bind s in
    if-Opens fails s.monitored _ _
      (
        if_monitored s.secure _ s (
            configure_curve-monitored (configure_curve bind s).0 (configure_curve bind s).1 ∙ once),
        refl,
        refl,
      )
      (if_monitored s.secure _ s once, refl, refl)

open_proxied-Opens :
    (bind fails : Bool) (port : ℕ) (o : Option Ip) (s : Socket)
    → Opens s.monitored (open_proxied bind fails port o s)
unfolding open_proxied
open_proxied-Opens bind fails port none s = (refl, refl, refl)
open_proxied-Opens bind fails port (some ip) s =
    open_tcp-Opens bind fails (record s { socks_proxy = some (ip, port) })

bind_or_connect-Opens :
    (library : Library) (bind fails : Bool) (addr : Endpoint) (s : Socket)
    → Opens s.monitored (bind_or_connect library bind fails addr s)
unfolding bind_or_connect
bind_or_connect-Opens library bind fails (inproc name) s =
    if-Opens fails s.monitored _ _ (refl, refl, refl) (refl, refl, refl)
bind_or_connect-Opens library bind fails (tcp_to host port) s = open_tcp-Opens bind fails s
bind_or_connect-Opens library bind fails (proxied text first none) s = (refl, refl, refl)
bind_or_connect-Opens library bind fails (proxied text (host, port) (some others)) s =
    open_proxied-Opens bind fails port (gethostbyname library host) s
bind_or_connect-Opens library bind fails other s = (refl, refl, refl)

await_success-Keeps :
    (deadline : Option ℕ) (polls : List (ℕ × Poll)) (s : Socket)
    → Keeps s.monitored (await_success deadline polls s)
unfolding await_success
await_success-Keeps deadline [] s = (refl, refl)
await_success-Keeps deadline ((now, nothing) ∷ polls) s = (refl, refl)
await_success-Keeps deadline ((now, interruption reason) ∷ polls) s = (refl, refl)
await_success-Keeps deadline ((now, succeeded) ∷ polls) s = (refl, refl)
await_success-Keeps deadline ((now, failed) ∷ polls) s = (refl, refl)
await_success-Keeps deadline ((now, neither) ∷ polls) s =
    await_success-Keeps deadline polls (polls_for (remaining now deadline) s)

and_then-Keeps :
    (x : Outcome (Unit {0}) × Socket) (deadline : Option ℕ) (polls : List (ℕ × Poll))
    (monitored : Bool)
    → Opens monitored x
    → Keeps monitored (and_then x (await_success deadline polls))
and_then-Keeps (done u, s) deadline polls monitored h =
    let k = await_success-Keeps deadline polls s in (k.0 ∙ h.0, k.1)
and_then-Keeps (raised e, s) deadline polls monitored h = (h.0, h.1)
and_then-Keeps (waiting, s) deadline polls monitored h = (h.0, h.1)

-- The monitor is open as long as the call waits, and the thread is subscribed as long as it waits unless
-- `able` is false; and no longer.
abbrev pub Leaves : ℕ → Bool → Bool → Result → Type 0
Leaves thread able refused (outcome, s, i) =
    (is_insecure outcome ≡ refused)
    × (s.monitored ≡ is_waiting outcome)
    × (j : Interruptor) × (i ≡ some j)
    × (j.subscribed thread ≡ (is_waiting outcome && able))

left_Leaves :
    (thread : ℕ) (outcome : Outcome (Unit {0})) (s : Socket) (i j : Interruptor)
    → IsEntered thread i j
    → is_insecure outcome ≡ false
    → is_waiting outcome ≡ false
    → Leaves thread true false (when_left outcome s (unsubscribe thread j))
left_Leaves thread outcome s i j v k w =
    let (e, free) = unsubscribe_entered thread i j v in
    subst (λ o. Leaves thread true false (when_left outcome s (o, (unsubscribe thread j).1)))
      (sym e) (k, sym w, (unsubscribe thread j).1, refl, ground arith)

finally-Leaves :
    (thread : ℕ) (x : Outcome (Unit {0}) × Socket) (i j : Interruptor)
    → IsEntered thread i j
    → Keeps true x
    → Leaves thread true false (finally thread x (some j))
unfolding finally
finally-Leaves thread (done u, s) i j v k = left_Leaves thread (done u) s i j v k.1 refl
finally-Leaves thread (raised e, s) i j v k = left_Leaves thread (raised e) s i j v k.1 refl
finally-Leaves thread (waiting, s) i j v k = (refl, k.0, j, refl, v.mine)

connect_blocking-Leaves :
    (library : Library) (thread now : ℕ) (fails : Bool) (addr : Endpoint) (timeout : Option ℕ)
    (polls : List (ℕ × Poll)) (s : Socket) (i : Interruptor)
    → i.subscribed thread ≡ false
    → Leaves thread
        (is_free i)
        false
        (connect_blocking library thread now fails addr timeout polls s (some i))
unfolding connect_blocking
connect_blocking-Leaves library thread now fails addr timeout polls s i h =
    let body : Outcome (Unit {0}) × Socket =
      and_then (bind_or_connect library false fails addr (record s { monitored = true }))
        (await_success (deadline_of now timeout) polls) in
    elim (Bool-cases (is_free i)) [
      | inl f ↦
          let (e, v) = subscribe_free thread i h f in
          subst
            (λ (o : Bool × Interruptor.Outcome).
              Leaves thread o.0 false (when_subscribed thread body s (o.1, (subscribe thread i).1)))
            (ap (λ b. (b, Interruptor.done)) (sym f) ∙ ap (λ o. (is_free i, o)) (sym e))
            (finally-Leaves thread body i (subscribe thread i).1 v (
              and_then-Keeps _ (deadline_of now timeout) polls true
                (bind_or_connect-Opens library false fails addr (record s { monitored = true }))))
      | inr f ↦
          let (e, same, flag, reason) = subscribe_blocked thread i h f in
          subst
            (λ o.
              Leaves thread (is_free i) false
                (when_subscribed thread body s (o, (subscribe thread i).1)))
            (sym e) (refl, refl, (subscribe thread i).1, refl, same thread ∙ h ∙ sym f)
    ]

permitted_internal :
    (library : Library) (addr : Endpoint) (s : Socket) (internal : Bool)
    → is_internal library addr ≡ some internal
    → permitted library addr s ≡ some (s.secure || internal || s.allow_insecure)
unfolding permitted
permitted_internal library addr s internal e = ground arith

connect_permitted-Leaves :
    (library : Library) (thread now : ℕ) (fails : Bool) (addr : Endpoint)
    (timeout : Option (Option ℕ)) (polls : List (ℕ × Poll)) (s : Socket) (i : Interruptor)
    (allowed : Bool)
    → s.monitored ≡ false
    → i.subscribed thread ≡ false
    → Leaves thread
        (is_free i)
        (not allowed)
        (connect_permitted library thread now fails addr timeout polls s (some i) (some allowed))
unfolding connect_permitted
connect_permitted-Leaves library thread now fails addr timeout polls s i false m h =
    (refl, m, i, refl, h)
connect_permitted-Leaves library thread now fails addr none polls s i true m h =
    let kept = bind_or_connect-Opens library false fails addr s in
    (kept.1, kept.0 ∙ m ∙ sym kept.2, i, refl, h ∙ ap (λ w. w && is_free i) (sym kept.2))
connect_permitted-Leaves library thread now fails addr (some timeout) polls s i true m h =
    connect_blocking-Leaves library thread now fails addr timeout polls s i h

-- Connecting from a thread that is not subscribed, whatever the address, the timeout and the events: the
-- call raises InsecureConnection exactly if the socket has no keys, is not to allow insecure messages,
-- and the address is not internal. As long as it waits its monitor is open, and the thread is subscribed
-- unless another thread is subscribed or blocks there, and once it is over, whichever way, neither is. The host of the address can be looked up.
pub connect-Leaves :
    (library : Library) (thread now : ℕ) (fails : Bool) (addr : Endpoint)
    (timeout : Option (Option ℕ)) (polls : List (ℕ × Poll)) (s : Socket) (i : Interruptor)
    (internal : Bool)
    → is_internal library addr ≡ some internal
    → s.monitored ≡ false
    → i.subscribed thread ≡ false
    → Leaves thread
        (is_free i)
        (not (s.secure || internal || s.allow_insecure))
        (connect library thread now fails addr timeout polls s (some i))
unfolding connect
connect-Leaves library thread now fails addr timeout polls s i internal e m h =
    subst
      (λ o.
        Leaves thread (is_free i) (not (s.secure || internal || s.allow_insecure))
          (connect_permitted library thread now fails addr timeout polls s (some i) o))
      (sym (permitted_internal library addr s internal e))
      (connect_permitted-Leaves library thread now fails addr timeout polls s i
        (s.secure || internal || s.allow_insecure) m h)
