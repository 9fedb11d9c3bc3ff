-- ===== src/Serialization/Bytes.antt =====
-- The header of a message, written and read.
use zhtp.Base.{
  ℕ, ◌/◌, ◌%◌, ◌^◌, ◌≤◌, ◌<◌, ◌≡◌, refl, ◌⊎◌, inl, inr, some, List, [], ◌∷◌, ◌++◌, arith,
}
use zhtp.Base.Lists.{
  length, All, take, drop, take-append, length-append, append-take-drop, length-take,
}
use zhtp.Base.Result.{ok, err}
use zhtp.Serialization.{
  Bincode, message, to_be_bytes, from_be_bytes, max_message_size, too_short, incomplete,
  invalid_magic, DeserializeError, deserialize_message, deserialize_body,
}

from_be_bytes-to_be_bytes :
    (n : ℕ)
    → n < 2 ^ 32
    → from_be_bytes
        (n % 2 ^ 32 / 2 ^ 24)
        (n % 2 ^ 32 / 2 ^ 16 % 256)
        (n % 2 ^ 32 / 2 ^ 8 % 256)
        (n % 2 ^ 32 % 256)
      ≡ n
from_be_bytes-to_be_bytes n h = omega arith

abbrev pub IsByte : ℕ → Type 0
IsByte b = b < 256

pub to_be_bytes-from_be_bytes :
    (a b c d : ℕ)
    → IsByte a
    → IsByte b
    → IsByte c
    → IsByte d
    → to_be_bytes (from_be_bytes a b c d) ≡ a ∷ b ∷ c ∷ d ∷ []
unfolding to_be_bytes
to_be_bytes-from_be_bytes a b c d ha hb hc hd = ground arith

-- The bytes begin with a message that `m` was read from.
abbrev pub IsAccepted : {Message : Type 0} → Bincode Message → List ℕ → Message → Type 0
IsAccepted bincode bytes m =
    (body : List ℕ) × (rest : List ℕ) × (bytes ≡ message body ++ rest)
    × (length body ≤ max_message_size)
    × (bincode.deserialize body ≡ some m)

-- Either the bytes are too few for a header, or these are its nine bytes.
pub data Header : List ℕ → Type 0 where
  short : {bytes : List ℕ} → length bytes < 9 → Header bytes
  long : (z h t p v a b c d : ℕ) (rest : List ℕ) → Header (z ∷ h ∷ t ∷ p ∷ v ∷ a ∷ b ∷ c ∷ d ∷ rest)

pub header : (bytes : List ℕ) → Header bytes
header [] = short (omega arith)
header (_ ∷ []) = short (omega arith)
header (_ ∷ _ ∷ []) = short (omega arith)
header (_ ∷ _ ∷ _ ∷ []) = short (omega arith)
header (_ ∷ _ ∷ _ ∷ _ ∷ []) = short (omega arith)
header (_ ∷ _ ∷ _ ∷ _ ∷ _ ∷ []) = short (omega arith)
header (_ ∷ _ ∷ _ ∷ _ ∷ _ ∷ _ ∷ []) = short (omega arith)
header (_ ∷ _ ∷ _ ∷ _ ∷ _ ∷ _ ∷ _ ∷ []) = short (omega arith)
header (_ ∷ _ ∷ _ ∷ _ ∷ _ ∷ _ ∷ _ ∷ _ ∷ []) = short (omega arith)
header (z ∷ h ∷ t ∷ p ∷ v ∷ a ∷ b ∷ c ∷ d ∷ rest) = long z h t p v a b c d rest

module _ {Message : Type 0} (bincode : Bincode Message) where
  open bincode use {serialize, deserialize}

  pub deserialize_message-message :
      (body rest : List ℕ)
      → length body ≤ max_message_size
      → deserialize_message bincode (message body ++ rest) ≡ deserialize_body bincode body
  unfolding deserialize_message message to_be_bytes
  deserialize_message-message body rest h = ground (
    arith,
    from_be_bytes-to_be_bytes (length body),
    take-append body rest,
    length-append body rest,
  )

  pub deserialize_message_short :
      (bytes : List ℕ) → length bytes < 9 → deserialize_message bincode bytes ≡ err too_short
  unfolding deserialize_message
  deserialize_message_short [] h = refl
  deserialize_message_short (_ ∷ []) h = refl
  deserialize_message_short (_ ∷ _ ∷ []) h = refl
  deserialize_message_short (_ ∷ _ ∷ _ ∷ []) h = refl
  deserialize_message_short (_ ∷ _ ∷ _ ∷ _ ∷ []) h = refl
  deserialize_message_short (_ ∷ _ ∷ _ ∷ _ ∷ _ ∷ []) h = refl
  deserialize_message_short (_ ∷ _ ∷ _ ∷ _ ∷ _ ∷ _ ∷ []) h = refl
  deserialize_message_short (_ ∷ _ ∷ _ ∷ _ ∷ _ ∷ _ ∷ _ ∷ []) h = refl
  deserialize_message_short (_ ∷ _ ∷ _ ∷ _ ∷ _ ∷ _ ∷ _ ∷ _ ∷ []) h = refl
  deserialize_message_short (_ ∷ _ ∷ _ ∷ _ ∷ _ ∷ _ ∷ _ ∷ _ ∷ _ ∷ rest) h = absurd (omega arith)

  -- What a message that is accepted begins with.
  header_fields :
      (z h t p v a b c d : ℕ) (rest : List ℕ) (m : Message)
      → deserialize_message bincode (z ∷ h ∷ t ∷ p ∷ v ∷ a ∷ b ∷ c ∷ d ∷ rest) ≡ ok m
      → (z ≡ 90)
        × (h ≡ 72)
        × (t ≡ 84)
        × (p ≡ 80)
        × (v ≡ 1)
        × (from_be_bytes a b c d ≤ max_message_size)
        × (from_be_bytes a b c d ≤ length rest)
        × (deserialize (take (from_be_bytes a b c d) rest) ≡ some m)
  unfolding deserialize_message deserialize_body
  header_fields z h t p v a b c d rest m e = ground arith

  pub deserialize_message-long :
      (z h t p v a b c d : ℕ) (rest : List ℕ) (m : Message)
      → IsByte a
      → IsByte b
      → IsByte c
      → IsByte d
      → deserialize_message bincode (z ∷ h ∷ t ∷ p ∷ v ∷ a ∷ b ∷ c ∷ d ∷ rest) ≡ ok m
      → IsAccepted bincode (z ∷ h ∷ t ∷ p ∷ v ∷ a ∷ b ∷ c ∷ d ∷ rest) m
  unfolding message
  deserialize_message-long z h t p v a b c d rest m ha hb hc hd e =
      let n = from_be_bytes a b c d in
      let (ez, eh, et, ep, ev, small, whole, decoded) = header_fields z h t p v a b c d rest m e in
      (
        take n rest,
        drop n rest,
        ground (
          arith,
          to_be_bytes-from_be_bytes a b c d ha hb hc hd,
          length-take n rest,
          append-take-drop n rest,
        ),
        ground (arith, length-take n rest),
        decoded,
      )

  deserialize_message-long_cut :
      (z h t p v a b c d x : ℕ) (rest back body : List ℕ)
      → length body ≤ max_message_size
      → message body ≡ (z ∷ h ∷ t ∷ p ∷ v ∷ a ∷ b ∷ c ∷ d ∷ rest) ++ x ∷ back
      → deserialize_message bincode (z ∷ h ∷ t ∷ p ∷ v ∷ a ∷ b ∷ c ∷ d ∷ rest) ≡ err incomplete
  unfolding deserialize_message message to_be_bytes
  deserialize_message-long_cut z h t p v a b c d x rest back body small e =
      ground (arith, from_be_bytes-to_be_bytes (length body), length-append rest (x ∷ back))

  pub deserialize_message-cut :
      (front back body : List ℕ) (x : ℕ)
      → Header front
      → length body ≤ max_message_size
      → message body ≡ front ++ x ∷ back
      → (deserialize_message bincode front ≡ err too_short)
        ⊎ (deserialize_message bincode front ≡ err incomplete)
  deserialize_message-cut front back body x (short few) small e =
      inl (deserialize_message_short front few)
  deserialize_message-cut _ back body x (long z h t p v a b c d rest) small e =
      inr (deserialize_message-long_cut z h t p v a b c d x rest back body small e)

  pub deserialize_message-IsAccepted :
      (bytes : List ℕ) (m : Message)
      → Header bytes
      → All IsByte bytes
      → deserialize_message bincode bytes ≡ ok m
      → IsAccepted bincode bytes m
  deserialize_message-IsAccepted bytes m (short few) are_bytes e =
      absurd (ground (arith, deserialize_message_short bytes few))
  deserialize_message-IsAccepted _ m (long z h t p v a b c d rest)
        (_, (_, (_, (_, (_, (ha, (hb, (hc, (hd, _))))))))) e =
      deserialize_message-long z h t p v a b c d rest m ha hb hc hd e

  pub deserialize_message_headless :
      (bytes : List ℕ) {rest : List ℕ}
      → bytes ≡ 1 ∷ rest
      → Header bytes
      → (e : DeserializeError) × ((e ≡ too_short) ⊎ (e ≡ invalid_magic))
        × (deserialize_message bincode bytes ≡ err e)
  unfolding deserialize_message
  deserialize_message_headless bytes h (short few) =
      (too_short, inl refl, deserialize_message_short bytes few)
  deserialize_message_headless _ h (long z _ t p v a b c d rest) =
      (invalid_magic, inr refl, ground arith)
