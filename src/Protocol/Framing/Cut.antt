-- ===== src/Protocol/Framing/Cut.antt =====
-- The loop of `get_messages_binary` and the iterator chain of `get_messages_text` cut alike: both
-- give the nonempty pieces between separators.
use ac_signalr_client_lib_rs.Base.{
  ℕ, zero, suc, ◌<◌, ◌≡◌, ◌≢◌, refl, sym, inl, inr, List, [], ◌∷◌, ◌++◌, map, append-nil,
  append_assoc, none, some, Text, length, drop, All, ◌==◌, arith, Bool-cases, Option-cases,
}
use ac_signalr_client_lib_rs.Protocol.Messages.{separator, strip_record_separator}
use ac_signalr_client_lib_rs.Protocol.Framing.{
  split, nonempty, position, take, onto_first, push_nonempty, binary_loop, get_messages_text,
  get_messages_binary,
}

abbrev pub IsClean : Text → Type 0
IsClean = All (λ c. c ≢ separator)

pub split_cut :
    (s : Text) (i : ℕ)
    → position s ≡ some i
    → (split s ≡ take i s ∷ split (drop (suc i) s)) × (length (drop (suc i) s) < length s)
unfolding position take split
split_cut [] i h = cc
split_cut (c ∷ s) zero h = ground arith
split_cut (c ∷ s) (suc i) h = ground (arith, split_cut s i)

pub split_whole : (s : Text) → position s ≡ none → split s ≡ s ∷ []
unfolding position split
split_whole [] h = refl
split_whole (c ∷ s) h = ground (arith, split_whole s)

push_nonempty-nonempty :
    (messages : List Text) (p : Text) (ps : List Text)
    → push_nonempty messages p ++ nonempty ps ≡ messages ++ nonempty (p ∷ ps)
unfolding nonempty
push_nonempty-nonempty messages [] ps = refl
push_nonempty-nonempty messages (c ∷ p) ps = append_assoc messages _ _

push_nonempty_lem :
    (messages : List Text) (p : Text) → push_nonempty messages p ≡ messages ++ nonempty (p ∷ [])
unfolding nonempty
push_nonempty_lem messages [] = sym (append-nil messages)
push_nonempty_lem messages (c ∷ p) = refl

binary_loop-split :
    (f : ℕ) (s : Text) (messages : List Text)
    → length s < f
    → binary_loop f s messages ≡ messages ++ nonempty (split s)
unfolding binary_loop
binary_loop-split zero s messages h = elim h [ ]
binary_loop-split (suc f) s messages h = elim (Option-cases (position s)) [
  | inl e ↦ rw (binary_loop, e, split_whole s e) (push_nonempty_lem messages s)
  | inr (i, e) ↦
      let (cut, shorter) = split_cut s i e in
      rw
        (binary_loop, e, cut, ← push_nonempty-nonempty messages (take i s) (split (drop (suc i) s)))
        (binary_loop-split f (drop (suc i) s) (push_nonempty messages (take i s)) (omega arith))
]

-- The loop of `get_messages_binary` ends, and gives the nonempty pieces between the separators of
-- the data, in order.
pub get_messages_binary-split : (s : Text) → get_messages_binary s ≡ nonempty (split s)
unfolding get_messages_binary
get_messages_binary-split s = binary_loop-split (suc (length s)) s [] (omega arith)

onto_first-IsClean :
    (c : ℕ) (ps : List Text) → c ≢ separator → All IsClean ps → All IsClean (onto_first c ps)
onto_first-IsClean c [] h a = ((h, tt), tt)
onto_first-IsClean c (p ∷ ps) h a = ((h, a.0), a.1)

split-IsClean : (s : Text) → All IsClean (split s)
unfolding split
split-IsClean [] = (tt, tt)
split-IsClean (c ∷ s) = elim (Bool-cases (c == separator)) [
  | inl e ↦ rw e (tt, split-IsClean s)
  | inr e ↦ rw e (onto_first-IsClean c (split s) (ground arith) (split-IsClean s))
]

strip_of_IsClean : (p : Text) → IsClean p → strip_record_separator p ≡ p
unfolding strip_record_separator
strip_of_IsClean [] h = refl
strip_of_IsClean (c ∷ p) h = ground (arith, strip_of_IsClean p h.1, h.0)

map_strip : (ps : List Text) → All IsClean ps → map strip_record_separator ps ≡ ps
map_strip [] h = refl
map_strip (p ∷ ps) h = rw (strip_of_IsClean p h.0, map_strip ps h.1)

-- Text frames and binary frames are cut alike: on the same bytes, the loop of `get_messages_binary`
-- and the iterator chain of `get_messages_text` give the same messages.
pub get_messages_binary-text : (s : Text) → get_messages_binary s ≡ get_messages_text s
unfolding get_messages_text
get_messages_binary-text s =
    rw (map_strip (split s) (split-IsClean s)) (get_messages_binary-split s)

-- A message holds a byte at least, and no separator.
abbrev pub IsMessage : Text → Type 0
IsMessage p = (p ≢ []) × IsClean p

nonempty-IsMessage : (ps : List Text) → All IsClean ps → All IsMessage (nonempty ps)
unfolding nonempty
nonempty-IsMessage [] h = tt
nonempty-IsMessage ([] ∷ ps) h = nonempty-IsMessage ps h.1
nonempty-IsMessage ((c ∷ p) ∷ ps) h = (((λ e. cc), h.0), nonempty-IsMessage ps h.1)

-- Whatever bytes a frame holds, every message cut out of it is nonempty and holds no separator.
pub get_messages_binary-IsMessage : (s : Text) → All IsMessage (get_messages_binary s)
get_messages_binary-IsMessage s =
    rw (get_messages_binary-split s) (nonempty-IsMessage (split s) (split-IsClean s))
