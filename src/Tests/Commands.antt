-- ===== src/Tests/Commands.antt =====
-- Typed commands, with numbers in tallies.
use Prim.Native.String.{[] as nil_text, ◌∷◌ as cons_text, ◌++◌ as add_text}
use text.Mathlib.TextLemmas.{nil-append, cons-append}
use niba.Prelude.{
  ℕ, zero, suc, ◌≡◌, refl, ap, ◌∙◌, String, Bool, true, false, not, ◌&&◌, some, List, [], ◌∷◌,
  if◌then◌else◌,
}
use niba.Prelude.Int.{ℤ, pos, negsuc}
use niba.Prelude.Run.{done}
use niba.Client.Commands.{TextLib, handle_cmd}
use niba.Client.Commands.Typed.{
  Command, to_send, is_blank, blank_free, IsWord, Readable, IsText, one_word, more_words, requested,
  handle_cmd-typed,
}
use niba.Tests.Exchanges.{fresh}

-- As many letters as the number says.
abbrev tally : ℕ → String
tally zero = ""
tally (suc n) = cons_text "x" (tally n)

abbrev letters : String → ℕ
letters nil_text = 0
letters (cons_text c s) = suc (letters s)

letters-tally : (n : ℕ) → letters (tally n) ≡ n
letters-tally zero = refl
letters-tally (suc n) = ap suc (letters-tally n)

abbrev twice : ℕ → ℕ
twice zero = zero
twice (suc n) = suc (suc (twice n))

abbrev away : ℤ → ℤ
away (pos n) = pos (suc n)
away (negsuc n) = negsuc (suc n)

-- Even tallies are positive, odd ones negative.
abbrev halved : ℕ → ℤ
halved zero = pos 0
halved (suc zero) = negsuc 0
halved (suc (suc n)) = away (halved n)

halved-twice : (n : ℕ) → halved (twice n) ≡ pos n
halved-twice zero = refl
halved-twice (suc n) = ap away (halved-twice n)

halved-odd : (n : ℕ) → halved (suc (twice n)) ≡ negsuc n
halved-odd zero = refl
halved-odd (suc n) = ap away (halved-odd n)

abbrev show : ℤ → String
show (pos n) = tally (twice n)
show (negsuc n) = tally (suc (twice n))

abbrev with_letter : String → List String → List String
with_letter c [] = c ∷ []
with_letter c (word ∷ rest) = add_text c word ∷ rest

-- The words between the spaces and tabs.
abbrev split_text : String → List String
split_text nil_text = "" ∷ []
split_text (cons_text c s) =
    let rest = split_text s in
    if is_blank (cons_text c nil_text) then "" ∷ rest else with_letter (cons_text c nil_text) rest

abbrev tallies : TextLib
tallies = record {
  append = add_text;
  split = split_text;
  stoi = λ s. done (halved (letters s));
  front = λ s. done (letters s);
}

stoi-show : (n : ℤ) → tallies.stoi (show n) ≡ done n
stoi-show (pos n) = ap done (ap halved (letters-tally (twice n)) ∙ halved-twice n)
stoi-show (negsuc n) = ap done (ap halved (letters-tally (suc (twice n))) ∙ halved-odd n)

tally-IsWord : (n : ℕ) → IsWord (tally n)
tally-IsWord zero = refl
tally-IsWord (suc n) = tally-IsWord n

show-IsWord : (n : ℤ) → IsWord (show n)
show-IsWord (pos n) = tally-IsWord (twice n)
show-IsWord (negsuc n) = tally-IsWord (suc (twice n))

not_blank : (b c : Bool) → not b && c ≡ true → (b ≡ false) × (c ≡ true)
not_blank true c h = cc
not_blank false c h = (refl, h)

split-word : (w : String) → IsWord w → split_text w ≡ w ∷ []
split-word nil_text h = refl
split-word (cons_text c s) h =
    let (b, i) = not_blank (is_blank (cons_text c nil_text)) (blank_free s) h in
    rw b (rw (split-word s i) (rw (cons-append c "" s, nil-append s) refl))

split-append :
    (w line : String) → IsWord w → split_text (add_text w (add_text " " line)) ≡ w ∷ split_text line
split-append nil_text line h =
    rw (nil-append (add_text " " line), cons-append " " "" line, nil-append line) refl
split-append (cons_text c s) line h =
    let (b, i) = not_blank (is_blank (cons_text c nil_text)) (blank_free s) h in
    rw (cons-append c s (add_text " " line))
      (rw b (rw (split-append s line i) (rw (cons-append c "" s, nil-append s) refl)))

tallies-Readable : Readable tallies show tally
tallies-Readable = record {
  split-word = split-word;
  split-append = split-append;
  show-IsWord = λ n h. show-IsWord n;
  stoi-show = λ n h. stoi-show n;
  letter-IsWord = λ c h. tally-IsWord c;
  front-letter = λ c h. ap done (letters-tally c);
}

abbrev greeting : Command
greeting = to_send "niba" "good  day"

greeting-IsText : IsText tallies show tally "good  day"
greeting-IsText = more_words "good" " day" refl (more_words "" "day" refl (one_word "day" refl))

handle_cmd-typed_example :
    handle_cmd tallies fresh "send niba good  day"
    ≡ done (some (requested tallies show tally fresh greeting))
handle_cmd-typed_example =
    handle_cmd-typed tallies show tally fresh tallies-Readable greeting (refl, greeting-IsText)
