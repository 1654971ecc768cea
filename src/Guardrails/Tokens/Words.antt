-- ===== src/Guardrails/Tokens/Words.antt =====
-- The words of a text, and that `findall` finds them.
use Prim.Native.Char.{Char}
use compliance_framework.Prelude.{
  String, ◌<>◌, true, false, inl, inr, Bool-cases, subst, ◌≡◌, refl, ap, sym, ◌∙◌, nonempty, List,
  [], ◌∷◌,
}
use text.Mathlib.TextLemmas.{nil-append, cons-append, append-nil}
use compliance_framework.Guardrails.Tokens.{is_token_char, flush, runs, findall}

abbrev AllTokenChars : String → Type 0
AllTokenChars String.[] = Unit
AllTokenChars (String.◌∷◌ c s) = (is_token_char c ≡ true) × AllTokenChars s

-- A text of at least one token character and no other.
abbrev pub IsWord : String → Type 0
IsWord w = (nonempty w ≡ true) × AllTokenChars w

abbrev pub AllGaps : String → Type 0
AllGaps String.[] = Unit
AllGaps (String.◌∷◌ c s) = (is_token_char c ≡ false) × AllGaps s

-- The text does not begin with a token character.
abbrev pub Stops : String → Type 0
Stops String.[] = Unit
Stops (String.◌∷◌ c s) = is_token_char c ≡ false

-- The text consists of the words in this order, with characters of other kinds around them: at least
-- one between two words.
pub data Spells : String → List String → Type 0 where
  gaps : {text : String} → AllGaps text → Spells text []
  word :
      {text : String} (gap w s : String) {ws : List String}
      → text ≡ gap <> (w <> s)
      → AllGaps gap
      → IsWord w
      → Stops s
      → Spells s ws
      → Spells text (w ∷ ws)

runs_go :
    (c : Char) (s : String)
    → is_token_char c ≡ true
    → runs (String.◌∷◌ c s) ≡ (String.◌∷◌ c (runs s).0, (runs s).1)
unfolding runs
runs_go c s h = rw h refl

runs-append : (w s : String) → AllTokenChars w → runs (w <> s) ≡ (w <> (runs s).0, (runs s).1)
runs-append String.[] s h =
    ap runs (nil-append s) ∙ ap (λ t. (t, (runs s).1)) (sym (nil-append (runs s).0))
runs-append (String.◌∷◌ c w) s h =
    ap runs (cons-append c w s)
    ∙ runs_go c (w <> s) h.0
    ∙ ap (λ (p : String × List String). (String.◌∷◌ c p.0, p.1)) (runs-append w s h.1)
    ∙ ap (λ t. (t, (runs s).1)) (sym (cons-append c w (runs s).0))

flush_word : (w : String) (ws : List String) → nonempty w ≡ true → flush w ws ≡ w ∷ ws
flush_word String.[] ws h = absurd (cc)
flush_word (String.◌∷◌ c w) ws h = refl

findall-runs : (s : String) → findall s ≡ flush (runs s).0 (runs s).1
unfolding findall
findall-runs s = refl

findall_cons :
    (c : Char) (s : String) → is_token_char c ≡ false → findall (String.◌∷◌ c s) ≡ findall s
unfolding findall runs
findall_cons c s h = rw h refl

findall_nil : findall "" ≡ []
unfolding findall runs
findall_nil = refl

runs_stop : (s : String) → Stops s → runs s ≡ (String.[], findall s)
unfolding runs findall
runs_stop String.[] h = refl
runs_stop (String.◌∷◌ c s) h = rw h refl

findall_gap : (gap s : String) → AllGaps gap → findall (gap <> s) ≡ findall s
findall_gap String.[] s h = ap findall (nil-append s)
findall_gap (String.◌∷◌ c gap) s h =
    ap findall (cons-append c gap s) ∙ findall_cons c (gap <> s) h.0 ∙ findall_gap gap s h.1

findall_word : (w s : String) → IsWord w → Stops s → findall (w <> s) ≡ w ∷ findall s
findall_word w s (some_char, chars) stops =
    findall-runs (w <> s)
    ∙ ap (λ (p : String × List String). flush p.0 p.1)
        (runs-append w s chars
          ∙ ap (λ (p : String × List String). (w <> p.0, p.1)) (runs_stop s stops))
    ∙ ap (λ t. flush t (findall s)) (append-nil w)
    ∙ flush_word w (findall s) some_char

-- `findall` finds the words that a text is spelled with.
pub findall-Spells : {text : String} {ws : List String} → Spells text ws → findall text ≡ ws
findall-Spells {text} (gaps h) =
    ap findall (sym (append-nil text)) ∙ findall_gap text "" h ∙ findall_nil
findall-Spells (word gap w s e h k stops rest) =
    ap findall e
    ∙ findall_gap gap (w <> s) h
    ∙ findall_word w s k stops
    ∙ ap (◌∷◌ w) (findall-Spells rest)

Spells-cons :
    (c : Char) (s : String) (ws : List String)
    → is_token_char c ≡ false
    → Spells s ws
    → Spells (String.◌∷◌ c s) ws
Spells-cons c s ws h (gaps k) = gaps (h, k)
Spells-cons c s ws h (word gap w rest e k l stops more) =
    word (String.◌∷◌ c gap) w rest (ap (String.◌∷◌ c) e ∙ sym (cons-append c gap (w <> rest)))
      (h, k) l stops more

Spells-flush :
    (head s text : String) (ws : List String)
    → text ≡ head <> s
    → AllTokenChars head
    → Stops s
    → Spells s ws
    → Spells text (flush head ws)
Spells-flush String.[] s text ws e h stops rest =
    subst (λ t. Spells t ws) (sym (e ∙ nil-append s)) rest
Spells-flush (String.◌∷◌ c head) s text ws e h stops rest =
    word "" (String.◌∷◌ c head) s (e ∙ sym (nil-append _)) tt (refl, h) stops rest

-- Behind its first run, a text goes on with something else.
record Parted (text : String) : Type 0 where
  rest : String
  split : text ≡ (runs text).0 <> rest
  chars : AllTokenChars (runs text).0
  stops : Stops rest
  spells : Spells rest (runs text).1

text-Parted : (text : String) → Parted text
unfolding runs
text-Parted String.[] = record {
  rest = "";
  split = sym (nil-append "");
  chars = tt;
  stops = tt;
  spells = gaps tt;
}
text-Parted (String.◌∷◌ c s) =
    let r = text-Parted s in
    elim (Bool-cases (is_token_char c)) [
      | inl token ↦ record {
        rest = r.rest;
        split = rw token (ap (String.◌∷◌ c) r.split ∙ sym (cons-append c (runs s).0 r.rest));
        chars = rw token (token, r.chars);
        stops = r.stops;
        spells = rw token r.spells;
      }
      | inr other ↦ record {
        rest = String.◌∷◌ c s;
        split = rw other (sym (nil-append _));
        chars = rw other tt;
        stops = other;
        spells = rw other (
            Spells-cons c s (flush (runs s).0 (runs s).1) other
              (Spells-flush (runs s).0 r.rest s (runs s).1 r.split r.chars r.stops r.spells));
      }
    ]

-- Every text is spelled with words, those that `findall` finds.
pub Spells-findall : (text : String) → Spells text (findall text)
unfolding findall
Spells-findall text =
    let r = text-Parted text in
    Spells-flush (runs text).0 r.rest text (runs text).1 r.split r.chars r.stops r.spells
