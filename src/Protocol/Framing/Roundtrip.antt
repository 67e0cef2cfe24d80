-- ===== src/Protocol/Framing/Roundtrip.antt =====
-- Messages written one after another, each with its separator, and cut apart again; and what the
-- cut does to a payload that holds the separator byte itself.
use ac_signalr_client_lib_rs.Base.{
  ℕ, zero, suc, ◌<◌, ◌≡◌, ◌↔◌, refl, ap, ◌∙◌, inl, inr, subst, Res-cases, List, [], ◌∷◌, ◌++◌, map,
  append_assoc, some, Text, length, drop, All, arith, Option-cases, Res, ok, ◌>>=◌,
}
use ac_signalr_client_lib_rs.Client.Configuration.{json}
use ac_signalr_client_lib_rs.Protocol.Utf8.Pieces.{IsUtf8, IsUtf8-cut}
use ac_signalr_client_lib_rs.Protocol.Messages.{separator, Serde, serialize, deserialize}
use ac_signalr_client_lib_rs.Protocol.Framing.{
  split, nonempty, position, take, get_messages_text, get_messages_binary,
}
use ac_signalr_client_lib_rs.Protocol.Framing.Cut.{
  IsClean, IsMessage, split_cut, split_whole, get_messages_binary-split, get_messages_binary-text,
  get_messages_binary-IsMessage,
}

-- The bytes of the messages in a row, a separator behind each.
unfoldable pub join : List Text → Text
join [] = []
join (m ∷ ms) = m ++ separator ∷ join ms

split-append : (p s : Text) → IsClean p → split (p ++ separator ∷ s) ≡ p ∷ split s
unfolding split
split-append [] s h = refl
split-append (c ∷ p) s h = ground (arith, split-append p s h.1, h.0)

nonempty-split-join : (ms : List Text) → All IsMessage ms → nonempty (split (join ms)) ≡ ms
unfolding nonempty join split
nonempty-split-join [] h = refl
nonempty-split-join ([] ∷ ms) h = absurd (h.0.0 refl)
nonempty-split-join ((c ∷ p) ∷ ms) h =
    rw (split-append (c ∷ p) (join ms) h.0.1) (ap (◌∷◌ (c ∷ p)) (nonempty-split-join ms h.1))

-- Messages that hold a byte at least and no separator are read back as they were written, however
-- many share a frame.
pub get_messages_binary-join :
    (ms : List Text) → All IsMessage ms → get_messages_binary (join ms) ≡ ms
get_messages_binary-join ms h = rw (get_messages_binary-split (join ms)) (nonempty-split-join ms h)

-- A single payload sent with its separator is read back as one message exactly when it is nonempty
-- and free of the separator byte.
pub get_messages_binary_iff :
    (p : Text) → (get_messages_binary (p ++ separator ∷ []) ≡ p ∷ []) ↔ IsMessage p
get_messages_binary_iff p = (
  λ e. (subst (All IsMessage) e (get_messages_binary-IsMessage (p ++ separator ∷ []))).0,
  λ h. unfold join in get_messages_binary-join (p ∷ []) (h, tt),
)

take-drop-position :
    (s : Text) (i : ℕ) → position s ≡ some i → s ≡ take i s ++ separator ∷ drop (suc i) s
unfolding position take
take-drop-position [] i h = cc
take-drop-position (c ∷ s) zero h = ground arith
take-drop-position (c ∷ s) (suc i) h = ground (arith, take-drop-position s i)

split-IsUtf8 : (f : ℕ) (s : Text) → length s < f → IsUtf8 s → All IsUtf8 (split s)
split-IsUtf8 zero s h v = elim h [ ]
split-IsUtf8 (suc f) s h v = elim (Option-cases (position s)) [
  | inl e ↦ rw (split_whole s e) (v, tt)
  | inr (i, e) ↦
      let (cut, shorter) = split_cut s i e in
      let (left, right) =
        IsUtf8-cut (take i s) separator (drop (suc i) s) (omega arith)
          (subst IsUtf8 (take-drop-position s i e) v) in
      rw cut (left, split-IsUtf8 f (drop (suc i) s) (omega arith) right)
]

nonempty-IsUtf8 : (ps : List Text) → All IsUtf8 ps → All IsUtf8 (nonempty ps)
unfolding nonempty
nonempty-IsUtf8 [] h = tt
nonempty-IsUtf8 ([] ∷ ps) h = nonempty-IsUtf8 ps h.1
nonempty-IsUtf8 ((c ∷ p) ∷ ps) h = (h.0, nonempty-IsUtf8 ps h.1)

-- Every message cut out of a text frame of valid UTF-8 is valid UTF-8 itself.
get_messages_text-IsUtf8 : (s : Text) → IsUtf8 s → All IsUtf8 (get_messages_text s)
get_messages_text-IsUtf8 s v =
    rw (← get_messages_binary-text s, get_messages_binary-split s)
      (nonempty-IsUtf8 (split s) (split-IsUtf8 (suc (length s)) s (omega arith) v))

-- What serde_json documents: a value that it writes it reads back, and its output is a nonempty
-- UTF-8 text in which control characters are escaped.
pub record IsJson {ℓ} {T : Type ℓ} (c : Serde T) : Type ℓ where
  pub reads_back : (v : T) (s : Text) → c.to_string v ≡ ok s → c.from_str s ≡ ok v
  pub is_message : (v : T) (s : Text) → c.to_string v ≡ ok s → IsMessage s
  pub is_utf8 : (v : T) (s : Text) → c.to_string v ≡ ok s → IsUtf8 s

module _ {ℓ} {T : Type ℓ} (c : Serde T) where
  -- The bytes that the writer sends for the values, one after another.
  unfoldable pub serialize_all : List T → Res Text
  serialize_all [] = ok []
  serialize_all (v ∷ vs) = do
    bytes ← serialize c v json
    rest ← serialize_all vs
    ok (bytes ++ rest)

  unfoldable pub deserialize_all : List Text → List (Res T)
  deserialize_all [] = []
  deserialize_all (m ∷ ms) = deserialize c m json ∷ deserialize_all ms

  serialize_json :
      (v : T) (bytes : Text)
      → serialize c v json ≡ ok bytes
      → (s : Text) × (c.to_string v ≡ ok s) × (bytes ≡ s ++ separator ∷ [])
  unfolding serialize
  serialize_json v bytes h = elim (Res-cases (c.to_string v)) [
    | inl (s, e) ↦ (s, e, ground arith)
    | inr (m, e) ↦ absurd (ground arith)
  ]

  deserialize_json : (s : Text) → IsUtf8 s → deserialize c s json ≡ c.from_str s
  unfolding deserialize
  deserialize_json s u = rw u refl

  pub deserialize_json_text :
      IsJson c → (v : T) (s : Text) → c.to_string v ≡ ok s → deserialize c s json ≡ ok v
  deserialize_json_text laws v s e = deserialize_json s (laws.is_utf8 v s e) ∙ laws.reads_back v s e

  messages_of :
      IsJson c
      → (vs : List T) (bytes : Text) → serialize_all vs ≡ ok bytes
      → (ms : List Text) × (bytes ≡ join ms) × All IsMessage ms × (deserialize_all ms ≡ map ok vs)
  unfolding serialize_all deserialize_all join
  messages_of laws [] bytes h = ([], ground arith, tt, refl)
  messages_of laws (v ∷ vs) bytes h = elim (Res-cases (serialize c v json)) [
    | inr (m, e) ↦ absurd (ground arith)
    | inl (first, e) ↦ elim (Res-cases (serialize_all vs)) [
      | inr (m, e') ↦ absurd (ground arith)
      | inl (rest, e') ↦
          let (s, written, is_first) = serialize_json v first e in
          let (ms, is_rest, clean, read) = messages_of laws vs rest e' in
          (
            s ∷ ms,
            ground (arith, append_assoc s (separator ∷ []) (join ms)),
            (laws.is_message v s written, clean),
            rw (deserialize_json_text laws v s written, read),
          )
    ]
  ]

  -- With a serializer that meets what serde_json documents: values that are serialized one after
  -- another into a text frame are cut apart and deserialized to the same values, in order.
  pub deserialize_all-serialize_all :
      IsJson c
      → (vs : List T) (bytes : Text) → serialize_all vs ≡ ok bytes
      → deserialize_all (get_messages_text bytes) ≡ map ok vs
  deserialize_all-serialize_all laws vs bytes h =
      let (ms, e, clean, read) = messages_of laws vs bytes h in
      rw (e, ← get_messages_binary-text (join ms), get_messages_binary-join ms clean) read
