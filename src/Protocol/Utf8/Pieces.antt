-- ===== src/Protocol/Utf8/Pieces.antt =====
-- A valid text cut at an ASCII byte is two valid texts.
use ac_signalr_client_lib_rs.Base.{ℕ, ◌+◌, ◌≤◌, ◌<◌, ◌≡◌, refl, [], ◌∷◌, ◌++◌, arith, Text, ok}
use ac_signalr_client_lib_rs.Protocol.Utf8.{
  Utf8State, idle, within, failed, next_byte, scan, from_utf8, invalid,
}

abbrev pub IsUtf8 : Text → Type 0
IsUtf8 t = from_utf8 t ≡ ok t

-- A continuation byte is no ASCII byte.
abbrev IsSane : Utf8State → Type 0
IsSane (within i seen k lo hi) = 0x80 ≤ lo
IsSane _ = Unit

next_byte-IsSane : (s : Utf8State) (b : ℕ) → IsSane s → IsSane (next_byte s b)
unfolding next_byte
next_byte-IsSane s b h = ground arith

-- Two states that differ in the indices alone.
abbrev Alike : Utf8State → Utf8State → Type 0
Alike (idle i) (idle j) = Unit
Alike (within i n k lo hi) (within j m l lo' hi') = (k ≡ l) × (lo ≡ lo') × (hi ≡ hi')
Alike (failed e) (failed e') = Unit
Alike _ _ = ⊥

next_byte-Alike : (s t : Utf8State) (b : ℕ) → Alike s t → Alike (next_byte s b) (next_byte t b)
unfolding next_byte
next_byte-Alike s t b h = ground arith

scan-Alike : (s t : Utf8State) (bs : Text) → Alike s t → Alike (scan s bs) (scan t bs)
unfolding scan
scan-Alike s t [] h = h
scan-Alike s t (b ∷ bs) h = scan-Alike (next_byte s b) (next_byte t b) bs (next_byte-Alike s t b h)

scan-append : (s : Utf8State) (a b : Text) → scan s (a ++ b) ≡ scan (scan s a) b
unfolding scan
scan-append s [] b = refl
scan-append s (c ∷ a) b = scan-append (next_byte s c) a b

scan-IsSane : (s : Utf8State) (bs : Text) → IsSane s → IsSane (scan s bs)
unfolding scan
scan-IsSane s [] h = h
scan-IsSane s (b ∷ bs) h = scan-IsSane (next_byte s b) bs (next_byte-IsSane s b h)

abbrev Ends : Utf8State → Type 0
Ends (idle i) = Unit
Ends _ = ⊥

scan_failed : (e : Text) (bs : Text) → ¬ Ends (scan (failed e) bs)
unfolding scan next_byte
scan_failed e [] h = h
scan_failed e (b ∷ bs) h = scan_failed e bs h

Ends-of_IsUtf8 : (t : Text) → IsUtf8 t → Ends (scan (idle 0) t)
unfolding from_utf8
Ends-of_IsUtf8 t h = ground arith

IsUtf8-of_Ends : (t : Text) → Ends (scan (idle 0) t) → IsUtf8 t
unfolding from_utf8
IsUtf8-of_Ends t h = ground arith

next_byte-idle : (i c : ℕ) → c < 0x80 → next_byte (idle i) c ≡ idle (i + 1)
unfolding next_byte
next_byte-idle i c h = ground arith

next_byte-within :
    (i n k lo hi c : ℕ) → c < 0x80 → 0x80 ≤ lo → next_byte (within i n k lo hi) c ≡ invalid n i
unfolding next_byte
next_byte-within i n k lo hi c h b = ground arith

Ends-Alike : (s t : Utf8State) → Alike s t → Ends s → Ends t
Ends-Alike (idle i) (idle j) a e = tt
Ends-Alike (idle i) (within j m l lo hi) a e = elim a [ ]
Ends-Alike (idle i) (failed m) a e = elim a [ ]
Ends-Alike (within i n k lo hi) t a e = elim e [ ]
Ends-Alike (failed m) t a e = elim e [ ]

-- An ASCII byte is accepted between two characters alone, and leaves the scan there.
cut_ascii :
    (s : Utf8State) (c : ℕ) (b : Text)
    → c < 0x80
    → IsSane s
    → Ends (scan (next_byte s c) b)
    → Ends s × Ends (scan (idle 0) b)
unfolding invalid
cut_ascii (idle i) c b h k e =
    let a : Alike (next_byte (idle i) c) (idle 0) = rw (next_byte-idle i c h) tt in
    (tt, Ends-Alike _ _ (scan-Alike _ (idle 0) b a) e)
cut_ascii (within i n l lo hi) c b h k e =
    absurd (scan_failed _ b (rw (next_byte-within i n l lo hi c h k) at e))
cut_ascii (failed m) c b h k e = absurd (scan_failed m b (unfold next_byte in e))

-- A valid text that is cut at an ASCII byte gives two valid texts.
pub IsUtf8-cut :
    (a : Text) (c : ℕ) (b : Text) → c < 0x80 → IsUtf8 (a ++ c ∷ b) → IsUtf8 a × IsUtf8 b
unfolding scan
IsUtf8-cut a c b h v =
    let whole = rw (scan-append (idle 0) a (c ∷ b)) at (Ends-of_IsUtf8 (a ++ c ∷ b) v) in
    let (left, right) = cut_ascii (scan (idle 0) a) c b h (scan-IsSane (idle 0) a tt) whole in
    (IsUtf8-of_Ends a left, IsUtf8-of_Ends b right)

Ends-next_byte : (s : Utf8State) (c : ℕ) → c < 0x80 → Ends s → Ends (next_byte s c)
unfolding next_byte
Ends-next_byte s c h e = ground arith

-- An ASCII byte behind a valid text leaves it valid.
pub IsUtf8-push : (t : Text) (c : ℕ) → c < 0x80 → IsUtf8 t → IsUtf8 (t ++ c ∷ [])
unfolding scan
IsUtf8-push t c h v = IsUtf8-of_Ends (t ++ c ∷ []) (
    rw (scan-append (idle 0) t (c ∷ []))
      (Ends-next_byte (scan (idle 0) t) c h (Ends-of_IsUtf8 t v)))
