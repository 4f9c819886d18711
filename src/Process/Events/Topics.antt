-- ===== src/Process/Events/Topics.antt =====
-- Whom a posted event reaches (zprocess/process_tree.py, Event).
use zprocess.Base.{◌≡◌, refl, ap, sym, ◌∙◌, Bool, true, false, List, [], ◌∷◌, contains, arith}
use zprocess.Process.Events.{Bytes, is_prefix, Event, done, encode_name, post}

-- whether a message reaches a subscriber of this event
abbrev pub reaches : Bytes → List Bytes → Bool
reaches name [] = false
reaches name (topic ∷ frames) = is_prefix (encode_name name) topic

prefix_same :
    (n m : Bytes)
    → contains 0 n ≡ false
    → contains 0 m ≡ false
    → is_prefix (encode_name n) (encode_name m) ≡ true
    → n ≡ m
unfolding contains
prefix_same [] [] a b h = refl
prefix_same [] (y ∷ m) a b h = absurd (ground arith)
prefix_same (x ∷ n) [] a b h = absurd (ground arith)
prefix_same (x ∷ n) (y ∷ m) a b h = ground (arith, prefix_same n m)

prefix_refl : (n : Bytes) → is_prefix n n ≡ true
prefix_refl [] = refl
prefix_refl (x ∷ n) = ground (arith, prefix_refl n)

-- Among events whose names have no null byte, what is posted for one reaches the subscribers of that
-- one and of no other, also where one name begins with the other.
pub post-reaches :
    (n m identifier datum : Bytes) (event : Event)
    → event.encoded_event_name ≡ encode_name m
    → event.can_post ≡ true
    → contains 0 n ≡ false
    → contains 0 m ≡ false
    → (frames : List Bytes) × (post identifier datum event ≡ done frames)
      × (reaches n frames ≡ true → n ≡ m)
      × (n ≡ m → reaches n frames ≡ true)
unfolding post
post-reaches n m identifier datum event e p a b = (
  event.encoded_event_name ∷ identifier ∷ datum ∷ [],
  ground arith,
  λ h. prefix_same n m a b (ap (is_prefix (encode_name n)) (sym e) ∙ h),
  λ h. ap (is_prefix (encode_name n)) (e ∙ ap encode_name (sym h)) ∙ prefix_refl (encode_name n),
)
