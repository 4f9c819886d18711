-- ===== src/Zlock/Client/Protocol.antt =====
-- How a client talks to the lock server (zprocess/zlock/__init__.py, ZLockClient and Lock).
use zprocess.Base.{
  ℕ, ◌≡◌, refl, ◌&&◌, inl, inr, Option-cases, Bool, true, false, Option, none, some, List, [], ◌∷◌,
  if◌then◌else◌, bytes, arith,
}
use zprocess.Zlock.Client.{
  Place, Client, Texts, Lock, Outcome, done, raised, Error, make_client_id, acquire_loop,
  acquire_messages, acquire, drop_on_error, ensure_socket, new_socket, local_client_id, release,
  release_with, send, receive, set_process_name, lock_release, not_connected,
}

ensure_socket_kept :
    (place : Place) (c : Client) → c.sock ≡ true → ensure_socket place c ≡ (done tt, c)
unfolding ensure_socket
ensure_socket_kept place c h = simp h

-- What `ensure_socket` does without a socket.
ensure_socket_new :
    (place : Place) (c : Client)
    → c.sock ≡ false
    → ensure_socket place c ≡ (
        if c.reachable
        then (done tt, record c { sock = true; client_id = some (make_client_id place c) })
        else (raised not_connected, record c { sock = false }))
unfolding ensure_socket new_socket
ensure_socket_new place c h = simp h

-- the socket of a client comes with a client id
abbrev pub IsNamed : Client → Type 0
IsNamed c = (c.sock && elim c.client_id [ none ↦ true | some id ↦ false ]) ≡ false

drop_on_error_drops :
    (outcome : Outcome ℕ) (c : Client) (e : Error)
    → (drop_on_error (outcome, c)).0 ≡ raised e
    → (drop_on_error (outcome, c)).1.sock ≡ false
unfolding drop_on_error
drop_on_error_drops (done a) c e h = cc
drop_on_error_drops (raised x) c e h = refl

-- A call of `acquire` that raises leaves no socket behind, so the next call starts afresh.
pub acquire_error_drops :
    (place : Place) (texts : Texts) (key : ℕ) (timeout : Option ℕ) (read_only : Bool) (c : Client)
    (e : Error)
    → IsNamed c
    → (acquire place texts key timeout read_only c).0 ≡ raised e
    → (acquire place texts key timeout read_only c).1.sock ≡ false
unfolding acquire local_client_id
acquire_error_drops place texts key timeout read_only c e named h =
    let seconds : ℕ = elim timeout [ none ↦ c.default_timeout | some t ↦ t ] in
    let fresh : Client = record c { sock = true; client_id = some (make_client_id place c) } in
    let looped : ℕ → Client → Outcome ℕ × Client = λ id d.
      acquire_loop place texts read_only id (acquire_messages place texts key id seconds read_only)
        d.incoming d in
    elim (Option-cases c.client_id) [
      | inl none_yet ↦ ground (
        arith,
        ensure_socket_kept place c,
        ensure_socket_new place c,
        drop_on_error_drops (looped (make_client_id place c) fresh).0
            (looped (make_client_id place c) fresh).1 e,
      )
      | inr (id, given) ↦ ground (
        arith,
        ensure_socket_kept place c,
        ensure_socket_new place c,
        drop_on_error_drops (looped id c).0 (looped id c).1 e,
        drop_on_error_drops (looped (make_client_id place c) fresh).0
            (looped (make_client_id place c) fresh).1 e,
      )
    ]

-- With a socket, a lock is released under the client id that acquired it, also if the client's id has changed since.
pub lock_release-set_process_name :
    (place : Place) (name : List ℕ) (lock : Lock) (id : ℕ) (c : Client)
    → c.sock ≡ true
    → lock.held_as ≡ some id
    → (lock_release place lock (set_process_name place name c).1).1.sent
      ≡ (bytes "release" ∷ lock.key ∷ id ∷ []) ∷ c.sent
unfolding lock_release release release_with set_process_name send receive drop_on_error
lock_release-set_process_name place name lock id c connected h =
    ground (arith, ensure_socket_kept place (set_process_name place name c).1 connected)
