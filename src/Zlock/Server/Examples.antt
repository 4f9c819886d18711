-- ===== src/Zlock/Server/Examples.antt =====
-- The lock server at a first request.
use zprocess.Base.{ℕ, ◌≡◌, refl, true, false, Option, none, some, [], ◌∷◌, contains, arith}
use zprocess.Base.Float.{Float, finite, pos}
use zprocess.Zlock.Lock
use zprocess.Zlock.Lock.{Lock, SetPop, new_lock}
use zprocess.Zlock.Lock.Readers.{is_reader}
use zprocess.Zlock.Server.Handlers
use zprocess.Zlock.Server.Handlers.{new_server}
use zprocess.Zlock.Server.State.{lock_of, keep_lock}
use zprocess.Zlock.Server.Requests.{asked, Answered, first_request}

any_pop : SetPop
unfolding contains
any_pop = record { choose = λ w ws. w; is_member = λ w ws. ground arith }

abbrev no_numbers : ℕ → Option Float
no_numbers frame = none

abbrev written_lock : Lock
written_lock = record new_lock { writer = some 4; writer_reentrancy_level = 1 }

free_key : Lock.acquire 4 false (lock_of 3 new_server) ≡ (written_lock, Lock.ok true)
unfolding Lock.acquire contains is_reader
free_key = refl

first_request_example :
    Answered
      (finite (pos 100))
      true
      3
      4
      (7 ∷ [])
      6
      (finite (pos 50))
      (asked (7 ∷ []) (finite (pos 50)) false)
      (keep_lock 3 written_lock new_server)
      (Handlers.accept any_pop no_numbers
        (finite (pos 100))
        (7 ∷ [])
        6
        3
        4
        (finite (pos 50))
        false
        new_server)
first_request_example =
    first_request any_pop no_numbers (finite (pos 100)) (7 ∷ []) 6 3 4 (finite (pos 50)) false true
      written_lock new_server refl free_key
