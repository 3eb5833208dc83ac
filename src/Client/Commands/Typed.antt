-- ===== src/Client/Commands/Typed.antt =====
-- What a player types for each request, beside `handle_cmd` of client/client_session.cpp.
use Prim.Native.String.{[] as nil_text, ◌∷◌ as cons_text}
use niba.Prelude.{
  ℕ, ◌<◌, ◌≤◌, ◌≡◌, refl, ap, ◌∙◌, String, Bool, true, not, ◌&&◌, ◌||◌, some, List, [], ◌∷◌, map,
  All,
}
use niba.Prelude.Int.{ℤ}
use niba.Prelude.Word.{IsInt}
use niba.Prelude.Run.{done}
use niba.Prelude.Strings.{str_eq}
use niba.Structs.{Player}
use niba.Wire.Kinds.{
  Kind, login, registeration, createchar, fight, learnmagic, fusemagic, reordermagic, send, Body,
}
use niba.Client.Session.{Request}
use niba.Client.Commands.{TextLib, numbers, joined, handle_words, handle_cmd}

-- The commands, with what is asked for.
pub data Command : Type 0 where
  to_register : String → String → Command
  to_log_in : String → String → Command
  to_fuse : ℤ → ℤ → Command
  to_fight : ℤ → Command
  to_learn : ℤ → Command
  to_reorder : List ℤ → Command
  to_send : String → String → Command
  to_create : Player → Command

-- The separators of the words, each as a text.
abbrev pub is_blank : String → Bool
is_blank c = str_eq c " " || str_eq c "\t"

abbrev pub blank_free : String → Bool
blank_free nil_text = true
blank_free (cons_text c s) = not (is_blank (cons_text c nil_text)) && blank_free s

-- A word of a line; a word may be empty.
abbrev pub IsWord : String → Type 0
IsWord w = blank_free w ≡ true

-- The printable characters.
abbrev pub IsPrintable : ℕ → Type 0
IsPrintable c = (33 ≤ c) × (c < 127)

-- What the libraries do: boost::split cuts a line at the blanks, `std::stoi` reads what `show` writes
-- of an `int`, and the first character of a text of one character is the one.
pub record Readable (T : TextLib) (show : ℤ → String) (letter : ℕ → String) : Type 0 where
  pub split-word : (w : String) → IsWord w → T.split w ≡ w ∷ []
  pub split-append :
      (w line : String) → IsWord w → T.split (T.append w (T.append " " line)) ≡ w ∷ T.split line
  pub show-IsWord : (n : ℤ) → IsInt n → IsWord (show n)
  pub stoi-show : (n : ℤ) → IsInt n → T.stoi (show n) ≡ done n
  pub letter-IsWord : (c : ℕ) → IsPrintable c → IsWord (letter c)
  pub front-letter : (c : ℕ) → IsPrintable c → T.front (letter c) ≡ done c

module _ (T : TextLib) (show : ℤ → String) (letter : ℕ → String) where
  open T use {append, split, stoi, front}

  -- A space between two texts.
  abbrev pub spaced : String → String → String
  spaced w line = append w (append " " line)

  -- A text without tabs: words with one space between two of them.
  pub data IsText : String → Type 0 where
    one_word : (w : String) → IsWord w → IsText w
    more_words : (w text : String) → IsWord w → IsText text → IsText (spaced w text)

  abbrev pub with_numbers : String → List ℤ → String
  with_numbers w [] = w
  with_numbers w (n ∷ ns) = spaced w (with_numbers (show n) ns)

  -- The line that is typed for a command.
  abbrev pub typed : Command → String
  typed (to_register id password) = spaced "register" (spaced id password)
  typed (to_log_in id password) = spaced "login" (spaced id password)
  typed (to_fuse a b) = spaced "fusemagic" (spaced (show a) (show b))
  typed (to_fight id) = spaced "fight" (show id)
  typed (to_learn id) = spaced "learnmagic" (show id)
  typed (to_reorder ids) = with_numbers "reordermagic" ids
  typed (to_send name text) = spaced "send" (spaced name text)
  typed (to_create p) = spaced "create" (
      spaced p.name (
        spaced (letter p.gender) (
          with_numbers (show p.attrs.strength)
            (p.attrs.dexterity ∷ p.attrs.physique ∷ p.attrs.spirit ∷ []))))

  -- Commands that can be typed.
  abbrev pub IsTypeable : Command → Type 0
  IsTypeable (to_register id password) = IsWord id × IsWord password
  IsTypeable (to_log_in id password) = IsWord id × IsWord password
  IsTypeable (to_fuse a b) = IsInt a × IsInt b
  IsTypeable (to_fight id) = IsInt id
  IsTypeable (to_learn id) = IsInt id
  IsTypeable (to_reorder ids) = All IsInt ids
  IsTypeable (to_send name text) = IsWord name × IsText text
  IsTypeable (to_create p) =
      IsWord p.name
      × IsPrintable p.gender
      × IsInt p.attrs.strength
      × IsInt p.attrs.dexterity
      × IsInt p.attrs.physique
      × IsInt p.attrs.spirit

  module _ {Real : Type 0} (fresh : (k : Kind) → Body Real k) where
    abbrev pub requested : Command → Request Real
    requested (to_register id password) =
        (registeration, record (fresh registeration) { id = id; password = password })
    requested (to_log_in id password) =
        (login, record (fresh login) { id = id; password = password })
    requested (to_fuse a b) =
        (fusemagic, record (fresh fusemagic) { primary_magic_id = a; secondary_magic_id = b })
    requested (to_fight id) = (fight, record (fresh fight) { enemyid = id })
    requested (to_learn id) = (learnmagic, record (fresh learnmagic) { static_id = id })
    requested (to_reorder ids) =
        (reordermagic, record (fresh reordermagic) { equipped_magic_ids = ids })
    requested (to_send name text) = (send, record (fresh send) { name = name; message = text })
    requested (to_create p) = (createchar, record (fresh createchar) { player = p })

    module _ (readable : Readable T show letter) where
      open readable use {split-word, split-append, show-IsWord, stoi-show, front-letter}

      -- The words that the code joins again are those of the text.
      split-joined :
          (text : String)
          → IsText text
          → (word : String) × (rest : List String) × (split text ≡ word ∷ rest)
            × (joined T fresh (word ∷ rest) ≡ text)
      split-joined _ (one_word w h) = (w, [], split-word w h, refl)
      split-joined _ (more_words w text h t) =
          let (word, rest, e, j) = split-joined text t in
          (w, word ∷ rest, split-append w text h ∙ ap (λ ws. w ∷ ws) e, ap (spaced w) j)

      split-with_numbers :
          (w : String) (ns : List ℤ)
          → IsWord w
          → All IsInt ns
          → split (with_numbers w ns) ≡ w ∷ map show ns
      split-with_numbers w [] h hs = split-word w h
      split-with_numbers w (n ∷ ns) h hs =
          split-append w (with_numbers (show n) ns) h
          ∙ ap (λ ws. w ∷ ws) (split-with_numbers (show n) ns (show-IsWord n hs.0) hs.1)

      numbers-show : (ns : List ℤ) → All IsInt ns → numbers T fresh (map show ns) ≡ done ns
      numbers-show [] hs = refl
      numbers-show (n ∷ ns) hs = rw (stoi-show n hs.0, numbers-show ns hs.1) refl

      two_words :
          (command a b : String)
          → IsWord command
          → IsWord a
          → IsWord b
          → split (spaced command (spaced a b)) ≡ command ∷ a ∷ b ∷ []
      two_words command a b h i j =
          split-append command (spaced a b) h
          ∙ ap (λ ws. command ∷ ws) (split-append a b i ∙ ap (λ ws. a ∷ ws) (split-word b j))

      -- Where the libraries read what is written, the line of a command gives the request that the
      -- command asks for: its words without blanks, its numbers those of an `int`, a gender that is
      -- printed, and a text to be sent without tabs.
      pub handle_cmd-typed :
          (c : Command) → IsTypeable c → handle_cmd T fresh (typed c) ≡ done (some (requested c))
      unfolding handle_cmd handle_words
      handle_cmd-typed (to_register id password) (h, i) =
          rw (two_words "register" id password refl h i) refl
      handle_cmd-typed (to_log_in id password) (h, i) =
          rw (two_words "login" id password refl h i) refl
      handle_cmd-typed (to_fuse a b) (h, i) =
          rw (two_words "fusemagic" (show a) (show b) refl (show-IsWord a h) (show-IsWord b i))
            (rw (stoi-show a h, stoi-show b i) refl)
      handle_cmd-typed (to_fight id) h =
          rw (split-with_numbers "fight" (id ∷ []) refl (h, tt)) (rw (stoi-show id h) refl)
      handle_cmd-typed (to_learn id) h =
          rw (split-with_numbers "learnmagic" (id ∷ []) refl (h, tt)) (rw (stoi-show id h) refl)
      handle_cmd-typed (to_reorder ids) h =
          rw (split-with_numbers "reordermagic" ids refl h) (rw (numbers-show ids h) refl)
      handle_cmd-typed (to_send name text) (h, i) =
          let (word, rest, e, j) = split-joined text i in
          rw (split-append "send" (spaced name text) refl, split-append name text h, e)
            (ap
              (λ message.
                done (some (send, record (fresh send) { name = name; message = message })))
              j)
      handle_cmd-typed (to_create p) (h, g, i, j, k, l) =
          rw
            (
              split-append "create" _ refl,
              split-append p.name _ h,
              split-append (letter p.gender) _ (readable.letter-IsWord p.gender g),
              split-with_numbers (show p.attrs.strength)
                  (p.attrs.dexterity ∷ p.attrs.physique ∷ p.attrs.spirit ∷ [])
                  (show-IsWord p.attrs.strength i) (j, (k, (l, tt))),
            )
            (rw
              (
                front-letter p.gender g,
                stoi-show p.attrs.strength i,
                stoi-show p.attrs.dexterity j,
                stoi-show p.attrs.physique k,
                stoi-show p.attrs.spirit l,
              )
              refl)
