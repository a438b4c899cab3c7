-- ===== src/Libc/Format.antt =====
-- What `printk` makes of a format.
use mathlib.Core.Option
use sistemas_operacionais.Base.{
  ℕ, ◌≤◌, ◌≡◌, refl, sym, ap, ◌∙◌, true, false, ◌&&◌, Option, some, none, List, [], ◌∷◌, ◌++◌,
  arith, ◌==◌, leb, differ, ◌≢◌,
}
use sistemas_operacionais.Libc.{Text}
use sistemas_operacionais.Libc.Printk.{Arg, plain, step, modifier, finish, printk_loop, printk}

-- No character of the text is a `%`.
abbrev pub Plain : Text → Type 0
Plain [] = Unit {0}
Plain (c ∷ s) = (c ≢ b'%') × Plain s

plain-step :
    (c : ℕ) (s : Text) (args : List Arg)
    → c ≢ b'%'
    → printk_loop plain (c ∷ s) args ≡ Option.map (λ rest. c ∷ rest) (printk_loop plain s args)
unfolding printk_loop step
plain-step c s args ne = rw (printk_loop, differ c b'%' ne) refl

map-map {ℓ} :
    {A : Type ℓ} (f g : A → A) (o : Option A)
    → Option.map f (Option.map g o) ≡ Option.map (λ x. f (g x)) o
map-map f g none = refl
map-map f g (some x) = refl

map-id {ℓ} : {A : Type ℓ} (o : Option A) → o ≡ Option.map (λ x. x) o
map-id none = refl
map-id (some x) = refl

-- Text in front of a format, with no `%` in it, is printed as it stands in front of what the
-- format prints.
pub printk-Plain :
    (s fmt : Text) (args : List Arg)
    → Plain s
    → printk (s ++ fmt) args ≡ Option.map (λ rest. s ++ rest) (printk fmt args)
unfolding printk
printk-Plain [] fmt args p = map-id (printk fmt args)
printk-Plain (c ∷ s) fmt args p =
    plain-step c (s ++ fmt) args p.0
    ∙ (ap (Option.map (λ rest. c ∷ rest)) (printk-Plain s fmt args p.1)
        ∙ map-map _ _ (printk fmt args))

-- A `0` behind the first digit of a width is not read as a digit: the conversion is unknown.
pub printk-width_zero :
    (c : ℕ) (fmt : Text) (args : List Arg)
    → b'1' ≤ c
    → c ≤ b'9'
    → printk (b'%' ∷ c ∷ b'0' ∷ fmt) args
      ≡ Option.map (λ rest. b'%' ∷ b'?' ∷ rest) (printk fmt args)
unfolding printk printk_loop step modifier finish
printk-width_zero c fmt args lo hi =
    let digit : (leb b'1' c && leb c b'9') ≡ true = ground arith in
    let minus : (c == b'-') ≡ false = ground arith in
    rw (minus, digit) (sym (map-id _) ∙ sym (map-id _))
