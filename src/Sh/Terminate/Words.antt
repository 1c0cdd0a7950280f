-- ===== src/Sh/Terminate/Words.antt =====
-- sh.c, nulterminate: each word of the tree becomes the C string of its bytes.
use jyyos.Prelude.{
  ℕ, zero, suc, ◌+◌, ◌-◌, ◌<◌, ◌≤◌, ◌≡◌, ◌≢◌, refl, ◌∙◌, ap, ◌⊎◌, inl, inr, true, arith,
}
use jyyos.Prelude.{List, [], ◌∷◌, length, set, take, drop, length-set}
use jyyos.Prelude.CText.{Bytes, until_nul}
use jyyos.Sh.{Word, Cmd, exec, redir, pipe, list, back, at, is_word_char}
use jyyos.Sh.Lex.{HasNoNul, IsWord}
use jyyos.Sh.Parse.Ensures.{Ensures, returns, Ensures-bind}
use jyyos.Sh.Parse.Sound.{All, Holds}
use jyyos.Sh.Parse.Sound.Grammar.{parsecmd-Holds}
use jyyos.Sh.Terminate.{end_word, end_words, nulterminate, string_at, parse_and_end}

at-set_ne : (b : Bytes) (i j v : ℕ) → i ≢ j → at (set b i v) j ≡ at b j
at-set_ne [] i j v h = refl
at-set_ne (x ∷ b) zero zero v h = absurd (h refl)
at-set_ne (x ∷ b) zero (suc j) v h = refl
at-set_ne (x ∷ b) (suc i) zero v h = refl
at-set_ne (x ∷ b) (suc i) (suc j) v h = at-set_ne b i j v (λ e. h (ap suc e))

at-set_zero : (b : Bytes) (i : ℕ) → at (set b i 0) i ≡ 0
at-set_zero [] i = refl
at-set_zero (x ∷ b) zero = refl
at-set_zero (x ∷ b) (suc i) = at-set_zero b i

at-set_keeps_zero : (b : Bytes) (i j : ℕ) → at b j ≡ 0 → at (set b i 0) j ≡ 0
at-set_keeps_zero [] i j h = refl
at-set_keeps_zero (x ∷ b) zero zero h = refl
at-set_keeps_zero (x ∷ b) zero (suc j) h = h
at-set_keeps_zero (x ∷ b) (suc i) zero h = h
at-set_keeps_zero (x ∷ b) (suc i) (suc j) h = at-set_keeps_zero b i j h

-- The writes behind the words leave a byte of a word alone, and a NUL a NUL.
module _ (text : Bytes) (i : ℕ) (inside : i < length text)
    (char : is_word_char (at text i) ≡ true) where
  stop-ne : (w : Word) → IsWord text w → w.stop ≢ i
  stop-ne w v e = elim v.maximal [ inl last ↦ omega arith | inr other ↦ cc (ap (at text) e) ]

  end_words-keeps :
      (ws : List Word) (b : Bytes) → All (IsWord text) ws → at (end_words ws b) i ≡ at b i
  unfolding end_words
  end_words-keeps [] b h = refl
  end_words-keeps (w ∷ ws) b (h, hs) =
      end_words-keeps ws (end_word w b) hs ∙ at-set_ne b w.stop i 0 (stop-ne w h)

  nulterminate-keeps :
      (cmd : Cmd) (b : Bytes) → Holds (IsWord text) cmd → at (nulterminate cmd b) i ≡ at b i
  unfolding nulterminate
  nulterminate-keeps (exec args) b (h, _) = end_words-keeps args b h
  nulterminate-keeps (redir cmd file mode fd) b (h, k, std) =
      at-set_ne (nulterminate cmd b) file.stop i 0 (stop-ne file k) ∙ nulterminate-keeps cmd b h
  nulterminate-keeps (pipe left right) b (h, k) =
      nulterminate-keeps right (nulterminate left b) k ∙ nulterminate-keeps left b h
  nulterminate-keeps (list left right) b (h, k) =
      nulterminate-keeps right (nulterminate left b) k ∙ nulterminate-keeps left b h
  nulterminate-keeps (back cmd) b h = nulterminate-keeps cmd b h

end_words-keeps_zero : (ws : List Word) (b : Bytes) (i : ℕ) → at b i ≡ 0 → at (end_words ws b) i ≡ 0
unfolding end_words
end_words-keeps_zero [] b i h = h
end_words-keeps_zero (w ∷ ws) b i h =
    end_words-keeps_zero ws (end_word w b) i (at-set_keeps_zero b w.stop i h)

nulterminate-keeps_zero :
    (cmd : Cmd) (b : Bytes) (i : ℕ) → at b i ≡ 0 → at (nulterminate cmd b) i ≡ 0
unfolding nulterminate
nulterminate-keeps_zero (exec args) b i h = end_words-keeps_zero args b i h
nulterminate-keeps_zero (redir cmd file mode fd) b i h =
    at-set_keeps_zero (nulterminate cmd b) file.stop i (nulterminate-keeps_zero cmd b i h)
nulterminate-keeps_zero (pipe left right) b i h =
    nulterminate-keeps_zero right (nulterminate left b) i (nulterminate-keeps_zero left b i h)
nulterminate-keeps_zero (list left right) b i h =
    nulterminate-keeps_zero right (nulterminate left b) i (nulterminate-keeps_zero left b i h)
nulterminate-keeps_zero (back cmd) b i h = nulterminate-keeps_zero cmd b i h

All-map {ℓ} :
    {A : Type ℓ} (P Q : A → Type 0) (xs : List A) → ((x : A) → P x → Q x) → All P xs → All Q xs
All-map P Q [] f h = tt
All-map P Q (x ∷ xs) f (h, hs) = (f x h, All-map P Q xs f hs)

Holds-map : (P Q : Word → Type 0) (cmd : Cmd) → ((w : Word) → P w → Q w) → Holds P cmd → Holds Q cmd
Holds-map P Q (exec args) f (h, few) = (All-map P Q args f h, few)
Holds-map P Q (redir cmd file mode fd) f (h, k, std) = (Holds-map P Q cmd f h, f file k, std)
Holds-map P Q (pipe left right) f (h, k) = (Holds-map P Q left f h, Holds-map P Q right f k)
Holds-map P Q (list left right) f (h, k) = (Holds-map P Q left f h, Holds-map P Q right f k)
Holds-map P Q (back cmd) f h = Holds-map P Q cmd f h

-- The word is ended in the line b.
abbrev Ended : Bytes → Word → Type 0
Ended b w = at b w.stop ≡ 0

end_words-Ended : (ws : List Word) (b : Bytes) → All (Ended (end_words ws b)) ws
unfolding end_words
end_words-Ended [] b = tt
end_words-Ended (w ∷ ws) b = (
  end_words-keeps_zero ws (end_word w b) w.stop (at-set_zero b w.stop),
  end_words-Ended ws (end_word w b),
)

nulterminate-Ended :
    (P : Word → Type 0) (cmd : Cmd) (b : Bytes)
    → Holds P cmd
    → Holds (Ended (nulterminate cmd b)) cmd
unfolding nulterminate
nulterminate-Ended P (exec args) b (h, few) = (end_words-Ended args b, few)
nulterminate-Ended P (redir cmd file mode fd) b (h, k, std) = (
  Holds-map (Ended (nulterminate cmd b)) (Ended (end_word file (nulterminate cmd b))) cmd
      (λ w e. at-set_keeps_zero (nulterminate cmd b) file.stop w.stop e)
      (nulterminate-Ended P cmd b h),
  at-set_zero (nulterminate cmd b) file.stop,
  std,
)
nulterminate-Ended P (pipe left right) b (h, k) = (
  Holds-map (Ended (nulterminate left b)) (Ended (nulterminate right (nulterminate left b))) left
      (λ w e. nulterminate-keeps_zero right (nulterminate left b) w.stop e)
      (nulterminate-Ended P left b h),
  nulterminate-Ended P right (nulterminate left b) k,
)
nulterminate-Ended P (list left right) b (h, k) = (
  Holds-map (Ended (nulterminate left b)) (Ended (nulterminate right (nulterminate left b))) left
      (λ w e. nulterminate-keeps_zero right (nulterminate left b) w.stop e)
      (nulterminate-Ended P left b h),
  nulterminate-Ended P right (nulterminate left b) k,
)
nulterminate-Ended P (back cmd) b h = nulterminate-Ended P cmd b h

end_words-length : (ws : List Word) (b : Bytes) → length (end_words ws b) ≡ length b
unfolding end_words
end_words-length [] b = refl
end_words-length (w ∷ ws) b = end_words-length ws (end_word w b) ∙ length-set b w.stop 0

nulterminate-length : (cmd : Cmd) (b : Bytes) → length (nulterminate cmd b) ≡ length b
unfolding nulterminate
nulterminate-length (exec args) b = end_words-length args b
nulterminate-length (redir cmd file mode fd) b =
    length-set (nulterminate cmd b) file.stop 0 ∙ nulterminate-length cmd b
nulterminate-length (pipe left right) b =
    nulterminate-length right (nulterminate left b) ∙ nulterminate-length left b
nulterminate-length (list left right) b =
    nulterminate-length right (nulterminate left b) ∙ nulterminate-length left b
nulterminate-length (back cmd) b = nulterminate-length cmd b

drop-at : (b : Bytes) (s : ℕ) → s < length b → drop s b ≡ at b s ∷ drop (suc s) b
drop-at [] s h = absurd (omega arith)
drop-at (x ∷ b) zero h = refl
drop-at (x ∷ b) (suc s) h = drop-at b s (omega arith)

drop-past : (b : Bytes) (s : ℕ) → length b ≤ s → drop s b ≡ []
drop-past [] zero h = refl
drop-past [] (suc s) h = refl
drop-past (x ∷ b) zero h = absurd (omega arith)
drop-past (x ∷ b) (suc s) h = drop-past b s (omega arith)

until_nul-cons : (c : ℕ) (b : Bytes) → c ≢ 0 → until_nul (c ∷ b) ≡ c ∷ until_nul b
unfolding until_nul
until_nul-cons c b h = ground arith

-- A C string ends at the first NUL.
string_at_end : (b : Bytes) (s : ℕ) → at b s ≡ 0 → string_at b s ≡ []
unfolding until_nul
string_at_end b s z = elim (in_or_past (length b) s) [
  | inl h ↦ rw (drop-at b s h, z)
  | inr h ↦ rw (drop-past b s h)
]
  where
    in_or_past : (n s : ℕ) → (s < n) ⊎ (n ≤ s)
    in_or_past n s = omega arith

string_at-take :
    (b text : Bytes) (n s : ℕ)
    → length b ≡ length text
    → s + n ≤ length text
    → ((i : ℕ) → s ≤ i → i < s + n → (at b i ≡ at text i) × (at text i ≢ 0))
    → at b (s + n) ≡ 0
    → string_at b s ≡ take n (drop s text)
string_at-take b text zero s e fits same z = string_at_end b s (ap (at b) (omega arith) ∙ z)
string_at-take b text (suc n) s e fits same z =
    let (here, live) = same s (omega arith) (omega arith) in
    rw (drop-at b s (omega arith), drop-at text s (omega arith), here)
      (until_nul-cons (at text s) (drop (suc s) b) live
        ∙ ap (λ t. at text s ∷ t)
            (string_at-take b text n (suc s) e (omega arith)
              (λ i lo hi. same i (omega arith) (omega arith)) (ap (at b) (omega arith) ∙ z)))

-- The bytes of a word.
abbrev pub word_text : Bytes → Word → Bytes
word_text text w = take (w.stop - w.start) (drop w.start text)

-- A word of the line, and the string that starts where it starts is that word.
abbrev pub Reads : Bytes → Bytes → Word → Type 0
Reads text b w = IsWord text w × (string_at b w.start ≡ word_text text w)

Reads-word :
    (text b : Bytes) (w : Word)
    → HasNoNul text
    → length b ≡ length text
    → ((i : ℕ) → i < length text → is_word_char (at text i) ≡ true → at b i ≡ at text i)
    → IsWord text w
    → Ended b w
    → string_at b w.start ≡ word_text text w
Reads-word text b w live e keeps v ended =
    string_at-take b text (w.stop - w.start) w.start e (omega (arith, v.filled, v.inside))
      (λ i lo hi.
        let inside : i < length text = omega (arith, v.filled, v.inside) in
        (keeps i inside (v.chars i lo (omega (arith, v.filled))), live i inside))
      (ap (at b) (omega (arith, v.filled)) ∙ ended)

Holds-both :
    (P Q R : Word → Type 0) (cmd : Cmd)
    → ((w : Word) → P w → Q w → R w)
    → Holds P cmd
    → Holds Q cmd
    → Holds R cmd
Holds-both P Q R (exec args) f (h, few) (k, _) = (All-both args h k, few)
  where
    All-both : (ws : List Word) → All P ws → All Q ws → All R ws
    All-both [] h k = tt
    All-both (w ∷ ws) (h, hs) (k, ks) = (f w h k, All-both ws hs ks)
Holds-both P Q R (redir cmd file mode fd) f (h, h', std) (k, k', _) =
    (Holds-both P Q R cmd f h k, f file h' k', std)
Holds-both P Q R (pipe left right) f (h, h') (k, k') =
    (Holds-both P Q R left f h k, Holds-both P Q R right f h' k')
Holds-both P Q R (list left right) f (h, h') (k, k') =
    (Holds-both P Q R left f h k, Holds-both P Q R right f h' k')
Holds-both P Q R (back cmd) f h k = Holds-both P Q R cmd f h k

-- On every line without a NUL parsecmd ends by a failed assert or with a tree in which each word is
-- a maximal run of word bytes of the line and, read as a C string from its pointer in the line that
-- nulterminate has changed, is that run.
pub parse_and_end-Reads :
    (text : Bytes)
    → HasNoNul text
    → Ensures (λ (cmd, used, b). Holds (Reads text b) cmd) (parse_and_end text)
unfolding parse_and_end
parse_and_end-Reads text live = Ensures-bind (parsecmd-Holds text live) λ (cmd, used) (words, _).
    returns (
      Holds-both (IsWord text) (Ended (nulterminate cmd text)) (Reads text (nulterminate cmd text))
        cmd
        (λ w v e. (
          v,
          Reads-word text (nulterminate cmd text) w live (nulterminate-length cmd text)
              (λ i inside char. nulterminate-keeps text i inside char cmd text words) v e,
        ))
        words (nulterminate-Ended (IsWord text) cmd text words))
