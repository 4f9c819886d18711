-- ===== src/Socks.antt =====
-- The SOCKS 5 proxy (zprocess/socks): the errors and results that its parts share, and its bytes.
pub mod Codec
pub mod Text
pub mod Recv
pub mod Rules
pub mod Connection
pub mod Lifecycle
mod Examples
use zprocess.Base.{
  ℕ, ◌+◌, ◌*◌, ◌/◌, ◌%◌, Bool, true, false, Option, none, some, List, [], ◌∷◌, ltb, if◌then◌else◌,
}

-- Why a connection ends (`ConnectionEnded`), and the other exceptions. `waiting` is none of them: what
-- the sockets report is used up and the call still waits.
pub data Reason : Type 0 where
  closed_by_origin closed_by_destination origin_timed_out destination_timed_out : Reason
  interrupted not_socks_5 auth_unsupported invalid_address_type : Reason
  refused : ℕ → Option ℕ → Reason

pub data Error : Type 0 where
  struct_error value_error type_error key_error unbound_local attribute_error os_error : Error
  connection_ended : Reason → Error
  waiting : Error

pub data Result {ℓ} (A : Type ℓ) : Type ℓ where
  ok : A → Result A
  err : Error → Result A

-- What an exception left changed stays changed.
abbrev pub M : Type 0 → Type 0 → Type 0
M S A = S → Result A × S

module _ {S : Type 0} where
  abbrev pub lift : {A : Type 0} → Result A → M S A
  lift result s = (result, s)

  infixl 5 ◌>>=◌ ◌>>◌
  abbrev pub ◌>>=◌ : {A B : Type 0} → M S A → (A → M S B) → M S B
  ◌>>=◌ m f s = let (result, s') = m s in elim result [ ok a ↦ f a s' | err e ↦ (err e, s') ]

  abbrev pub ◌>>◌ : {A B : Type 0} → M S A → M S B → M S B
  m >> k = m >>= λ _. k

-- `pack('B', n)`, `unpack('B', bytes)`, `pack('!H', n)` and `unpack('!H', bytes)`
abbrev pub pack_byte : ℕ → Result (List ℕ)
pack_byte n = if ltb n 256 then ok (n ∷ []) else err struct_error

abbrev pub unpack_byte : List ℕ → Result ℕ
unpack_byte (n ∷ []) = ok n
unpack_byte _ = err struct_error

abbrev pub pack_short : ℕ → Result (List ℕ)
pack_short n = if ltb n 65536 then ok ((n / 256) ∷ (n % 256) ∷ []) else err struct_error

abbrev pub unpack_short : List ℕ → Result ℕ
unpack_short (high ∷ low ∷ []) = ok (high * 256 + low)
unpack_short _ = err struct_error
