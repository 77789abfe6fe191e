-- ===== src/Lock/Info/Reading.antt =====
-- The lock file of kis_trend_atr_trading/engine/order_synchronizer.py says who wrote it: what
-- `acquire` writes, `get_running_instance_info` reads.
use mathlib.Core.List.{reverse, reverse-append, reverse-reverse, reverse-cons, append_assoc}
use kis_api_trend_atr.Base.{
  ℕ, zero, suc, ◌+◌, ◌/◌, ◌%◌, ◌≡◌, refl, sym, ap, ◌∙◌, true, false, some, List, [], ◌∷◌, ◌++◌,
  arith, eqb, ltb, ◌<◌, ◌≤◌, All, length, length-append, inl, inr, Bool-cases,
}
use kis_api_trend_atr.Base.Dict.{insert}
use kis_api_trend_atr.Base.Text.{
  Text, codes, strip, lstrip, is_space, decimal, digits, text_keyed, text_beq,
}
use kis_api_trend_atr.Session.Numerals.{split_once}
use kis_api_trend_atr.Lock.Info.{
  to_int, all_digits, parse_pid, read_info, read_lines, written, split_on, push, IsWord,
}

length-reverse : (s : Text) → length (reverse s) ≡ length s
length-reverse [] = refl
length-reverse (c ∷ s) =
    omega
      (arith, ap length (reverse-cons c s), length-append (reverse s) (c ∷ []), length-reverse s)

lstrip-word : (c : ℕ) (s : Text) → is_space c ≡ false → lstrip (c ∷ s) ≡ c ∷ s
unfolding lstrip
lstrip-word c s h = ground arith

lstrip-IsWord : (s : Text) → IsWord s → lstrip s ≡ s
unfolding lstrip
lstrip-IsWord [] h = refl
lstrip-IsWord (c ∷ s) h = lstrip-word c s h.0

All-append {ℓ κ} : {A : Type ℓ} (P : A → Type κ) (s t : List A) → All P s → All P t → All P (s ++ t)
All-append P [] t h k = k
All-append P (c ∷ s) t h k = (h.0, All-append P s t h.1 k)

IsWord-reverse : (s : Text) → IsWord s → IsWord (reverse s)
IsWord-reverse [] h = tt
IsWord-reverse (c ∷ s) h =
    rw (reverse-cons c s) (All-append _ (reverse s) (c ∷ []) (IsWord-reverse s h.1) (h.0, tt))

-- a blank in front of a word
strip_blank : (s : Text) → IsWord s → strip (32 ∷ s) ≡ s
unfolding strip lstrip
strip_blank s h =
    rw (lstrip-IsWord s h, lstrip-IsWord (reverse s) (IsWord-reverse s h)) (reverse-reverse s)

append_word : (w s : Text) → IsWord w → 0 < length w → lstrip (w ++ s) ≡ w ++ s
append_word [] s h k = absurd (omega arith)
append_word (c ∷ w) s h k = lstrip-word c (w ++ s) h.0

drop_blank : (s : Text) → lstrip (10 ∷ s) ≡ lstrip s
unfolding lstrip
drop_blank s = refl

-- The blank at the end of a line that ends with a word.
strip_end :
    (s w : Text)
    → IsWord w
    → 0 < length w
    → reverse (lstrip (reverse (s ++ (w ++ 10 ∷ [])))) ≡ s ++ w
strip_end s w h k =
    ap (λ t. reverse (lstrip t)) (reverse-append s (w ++ 10 ∷ []))
    ∙ ap (λ t. reverse (lstrip (t ++ reverse s))) (reverse-append w (10 ∷ []))
    ∙ ap reverse (
        drop_blank (reverse w ++ reverse s)
        ∙ append_word (reverse w) (reverse s) (IsWord-reverse w h) (rw (length-reverse w) k))
    ∙ reverse-append (reverse w) (reverse s)
    ∙ rw (reverse-reverse s, reverse-reverse w)

-- No line ends inside.
abbrev IsLine : Text → Type 0
IsLine s = All (λ c. eqb c 10 ≡ false) s

split_on-line : (s : Text) → IsLine s → split_on 10 s ≡ s ∷ []
unfolding split_on push
split_on-line [] h = refl
split_on-line (c ∷ s) h = rw (h.0, split_on-line s h.1)

split_on-lines : (s t : Text) → IsLine s → split_on 10 (s ++ 10 ∷ t) ≡ s ∷ split_on 10 t
unfolding split_on push
split_on-lines [] t h = refl
split_on-lines (c ∷ s) t h = rw (h.0, split_on-lines s t h.1)

word-IsLine : (s : Text) → IsWord s → IsLine s
word-IsLine [] h = tt
word-IsLine (c ∷ s) h = (ground (arith, h.0), word-IsLine s h.1)

word-IsLine-codes : (pid : Text) → IsWord pid → IsLine (codes "PID: " ++ pid)
word-IsLine-codes pid h =
    All-append _ (codes "PID: ") pid (refl, (refl, (refl, (refl, (refl, tt))))) (word-IsLine pid h)

started-IsLine : (started : Text) → IsWord started → IsLine (codes "Started: " ++ started)
started-IsLine started h =
    All-append _ (codes "Started: ") started
      (refl, (refl, (refl, (refl, (refl, (refl, (refl, (refl, (refl, tt)))))))))
      (word-IsLine started h)

strip-written :
    (pid started : Text)
    → IsWord started
    → 0 < length started
    → strip (written pid started) ≡ (codes "PID: " ++ pid) ++ 10 ∷ (codes "Started: " ++ started)
unfolding strip written
strip-written pid started h k =
    ap (λ t. reverse (lstrip (reverse t)))
      (lstrip-word b'P' _ refl
        ∙ sym (append_assoc (codes "PID: " ++ pid) (10 ∷ codes "Started: ") (started ++ 10 ∷ [])))
    ∙ strip_end ((codes "PID: " ++ pid) ++ 10 ∷ codes "Started: ") started h k
    ∙ append_assoc (codes "PID: " ++ pid) (10 ∷ codes "Started: ") started

split-written :
    (pid started : Text)
    → IsWord pid
    → IsWord started
    → 0 < length started
    → split_on 10 (strip (written pid started))
      ≡ (codes "PID: " ++ pid) ∷ (codes "Started: " ++ started) ∷ []
split-written pid started g h k =
    ap (split_on 10) (strip-written pid started h k)
    ∙ split_on-lines (codes "PID: " ++ pid) (codes "Started: " ++ started) (word-IsLine-codes pid g)
    ∙ ap (◌∷◌ (codes "PID: " ++ pid))
        (split_on-line (codes "Started: " ++ started) (started-IsLine started h))

strip_keys : (strip (codes "PID") ≡ codes "PID") × (strip (codes "Started") ≡ codes "Started")
unfolding strip lstrip
strip_keys = (refl, refl)

-- The two lines read back.
pub read_info-written :
    (pid started : Text)
    → IsWord pid
    → IsWord started
    → 0 < length started
    → read_info (written pid started) ≡ (codes "PID", pid) ∷ (codes "Started", started) ∷ []
unfolding read_info read_lines split_once insert text_beq
read_info-written pid started g h k =
    rw (split-written pid started g h k)
      (rw (strip_keys.0, strip_keys.1, strip_blank pid g, strip_blank started h) refl)

all_digits-digits :
    (fuel n : ℕ) (s : Text) → all_digits s ≡ true → all_digits (digits fuel n s) ≡ true
unfolding digits all_digits
all_digits-digits zero n s h = h
all_digits-digits (suc f) n s h = ground (arith, all_digits-digits f (n / 10) ((48 + n % 10) ∷ s))

digits-IsWord : (fuel n : ℕ) (s : Text) → IsWord s → IsWord (digits fuel n s)
unfolding digits
digits-IsWord zero n s h = h
digits-IsWord (suc f) n s h = elim (Bool-cases (ltb n 10)) [
  | inl small ↦ rw small (ground arith, h)
  | inr large ↦ rw large (digits-IsWord f (n / 10) ((48 + n % 10) ∷ s) (ground arith, h))
]

to_int-digits : (fuel n : ℕ) (s : Text) → n < fuel → to_int 0 (digits fuel n s) ≡ to_int n s
unfolding digits to_int
to_int-digits zero n s h = absurd (omega arith)
to_int-digits (suc f) n s h = elim (Bool-cases (ltb n 10)) [
  | inl small ↦ rw small (ap (λ m. to_int m s) (omega arith))
  | inr large ↦ rw large (
      to_int-digits f (n / 10) ((48 + n % 10) ∷ s) (ground arith)
      ∙ ap (λ m. to_int m s) (omega arith))
]

length-digits : (fuel n : ℕ) (s : Text) → length s ≤ length (digits fuel n s)
unfolding digits
length-digits zero n s = omega arith
length-digits (suc f) n s = ground (arith, length-digits f (n / 10) ((48 + n % 10) ∷ s))

digits_pos : (fuel n : ℕ) (s : Text) → 0 < length (digits (suc fuel) n s)
unfolding digits
digits_pos fuel n s = ground (arith, length-digits fuel (n / 10) ((48 + n % 10) ∷ s))

parse_pid-some :
    (s : Text) → 0 < length s → all_digits s ≡ true → parse_pid (some s) ≡ some (to_int 0 s)
unfolding parse_pid
parse_pid-some [] h k = absurd (omega arith)
parse_pid-some (c ∷ s) h k = rw k

pub decimal-IsWord : (n : ℕ) → IsWord (decimal n)
unfolding decimal
decimal-IsWord n = digits-IsWord (suc n) n [] tt

pub decimal_pos : (n : ℕ) → 0 < length (decimal n)
unfolding decimal
decimal_pos n = digits_pos n n []

-- The number of the process reads back.
pub parse_pid-decimal : (n : ℕ) → parse_pid (some (decimal n)) ≡ some n
unfolding decimal all_digits to_int
parse_pid-decimal n =
    parse_pid-some (digits (suc n) n []) (digits_pos n n []) (all_digits-digits (suc n) n [] refl)
    ∙ ap some (to_int-digits (suc n) n [] (omega arith))
