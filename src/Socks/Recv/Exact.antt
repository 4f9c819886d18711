-- ===== src/Socks/Recv/Exact.antt =====
-- The bytes that a call of RecvAll returns and leaves (class RecvAll of zprocess/socks/server.py).
use zprocess.Base.{
  ℕ, zero, suc, ◌≡◌, refl, sym, ap, ◌∙◌, true, false, List, [], ◌∷◌, ◌++◌, leb, if◌then◌else◌,
  length, take, drop, take-append, drop-append, append_assoc, length-append, arith, Bool-cases, inl,
  inr,
}
use zprocess.Socks.{Result, ok}
use zprocess.Socks.Recv.{
  Event, received, piped, silent, Socket, Callbacks, enough, recv_loop, recv_all,
}

-- the bytes that arrive before the socket closes, times out or is interrupted
abbrev pub arriving : List Event → List ℕ
arriving [] = []
arriving (received [] pipe ∷ events) = []
arriving (received (b ∷ bs) true ∷ events) = []
arriving (received (b ∷ bs) false ∷ events) = (b ∷ bs) ++ arriving events
arriving (piped ∷ events) = []
arriving (silent ∷ events) = []

abbrev pub left : Socket → List ℕ
left socket = socket.buffer ++ arriving socket.events

take_buffer : (n : ℕ) (xs ys : List ℕ) → leb n (length xs) ≡ true → take n (xs ++ ys) ≡ take n xs
unfolding take
take_buffer zero xs ys h = refl
take_buffer (suc n) [] ys h = absurd (ground arith)
take_buffer (suc n) (x ∷ xs) ys h = ap (λ t. x ∷ t) (take_buffer n xs ys (ground arith))

drop_buffer :
    (n : ℕ) (xs ys : List ℕ) → leb n (length xs) ≡ true → drop n (xs ++ ys) ≡ drop n xs ++ ys
unfolding drop
drop_buffer zero xs ys h = refl
drop_buffer (suc n) [] ys h = absurd (ground arith)
drop_buffer (suc n) (x ∷ xs) ys h = drop_buffer n xs ys (ground arith)

-- What a call comes to that returns `xs` and leaves `ys`.
abbrev pub Gives : Result (List ℕ) × Socket → List ℕ → List ℕ → Type 0
Gives result xs ys = (s' : Socket) × (result ≡ (ok xs, s')) × (left s' ≡ ys)

enough-Gives :
    (n : ℕ) (buffer xs ys : List ℕ) (events : List Event) (rest : Result (List ℕ) × Socket)
    → length xs ≡ n
    → buffer ++ arriving events ≡ xs ++ ys
    → (leb n (length buffer) ≡ false → Gives rest xs ys)
    → Gives (enough n buffer events rest) xs ys
enough-Gives n buffer xs ys events rest h e more = elim (Bool-cases (leb n (length buffer))) [
  | inl k ↦ (
    record { buffer = drop n buffer; events = events },
    ap
          (λ b.
            if b
            then (ok (take n buffer), record { buffer = drop n buffer; events = events })
            else rest)
          k
        ∙ ap (λ t. (ok t, record { buffer = drop n buffer; events = events }))
            (sym (take_buffer n buffer (arriving events) k)
              ∙ ap (take n) e
              ∙ ap (λ m. take m (xs ++ ys)) (sym h)
              ∙ take-append xs ys),
    sym (drop_buffer n buffer (arriving events) k)
        ∙ ap (drop n) e
        ∙ ap (λ m. drop m (xs ++ ys)) (sym h)
        ∙ drop-append xs ys,
  )
  | inr k ↦
      let (s', r, l) = more k in
      (
        s',
        ap
              (λ b.
                if b
                then (ok (take n buffer), record { buffer = drop n buffer; events = events })
                else rest)
              k
            ∙ r,
        l,
      )
]

too_short :
    (n : ℕ) (buffer xs ys : List ℕ)
    → length xs ≡ n
    → buffer ++ [] ≡ xs ++ ys
    → leb n (length buffer) ≡ false
    → ⊥
too_short n buffer xs ys h e k =
    ground (arith, length-append buffer [], length-append xs ys, ap length e)

recv_loop-Gives :
    (callbacks : Callbacks) (n : ℕ) (buffer : List ℕ) (events : List Event) (xs ys : List ℕ)
    → length xs ≡ n
    → buffer ++ arriving events ≡ xs ++ ys
    → Gives (recv_loop callbacks n buffer events) xs ys
unfolding recv_loop
recv_loop-Gives callbacks n buffer [] xs ys h e =
    enough-Gives n buffer xs ys [] _ h e λ k. absurd (too_short n buffer xs ys h e k)
recv_loop-Gives callbacks n buffer (received [] pipe ∷ events) xs ys h e =
    enough-Gives n buffer xs ys _ _ h e λ k. absurd (too_short n buffer xs ys h e k)
recv_loop-Gives callbacks n buffer (received (b ∷ bs) true ∷ events) xs ys h e =
    enough-Gives n buffer xs ys _ _ h e λ k. absurd (too_short n buffer xs ys h e k)
recv_loop-Gives callbacks n buffer (received (b ∷ bs) false ∷ events) xs ys h e =
    enough-Gives n buffer xs ys _ _ h e λ k.
      recv_loop-Gives callbacks n (buffer ++ (b ∷ bs)) events xs ys h
        (append_assoc buffer (b ∷ bs) (arriving events) ∙ e)
recv_loop-Gives callbacks n buffer (piped ∷ events) xs ys h e =
    enough-Gives n buffer xs ys _ _ h e λ k. absurd (too_short n buffer xs ys h e k)
recv_loop-Gives callbacks n buffer (silent ∷ events) xs ys h e =
    enough-Gives n buffer xs ys _ _ h e λ k. absurd (too_short n buffer xs ys h e k)

-- However the bytes that arrive are cut into pieces, a call for n bytes returns the first n of them, if
-- so many arrive before the socket closes, times out or is interrupted, and leaves the others for the
-- next call.
pub recv_all-Gives :
    (callbacks : Callbacks) (n : ℕ) (xs ys : List ℕ) (socket : Socket)
    → length xs ≡ n
    → left socket ≡ xs ++ ys
    → Gives (recv_all callbacks n socket) xs ys
unfolding recv_all
recv_all-Gives callbacks n xs ys socket h e =
    recv_loop-Gives callbacks n socket.buffer socket.events xs ys h e
