-- ===== src/Controller/Server/Effects.antt =====
-- Which calls a computation adds to the history.
use mathlib.Core.List.{append-nil, append_assoc, append_cancel_left}
use orb_operator.Base.{
  List, [], ◌∷◌, ◌++◌, ◌≡◌, refl, sym, ap, ◌∙◌, All, All-Memᴰ, Memᴰ, subst, All-append, All-imp,
  String,
}
use orb_operator.Errors.{Error, Result, ok, err}
use orb_operator.Controller.Server.{Call, History, M, ◌>>=◌, wrap_result}

-- The second history is the first and calls that all satisfy the predicate.
pub record Adds (P : Call → Type 0) (h h' : History) : Type 0 where
  pub calls : List Call
  pub history : h' ≡ h ++ calls
  pub all : All P calls

module _ (P : Call → Type 0) where
  pub Adds-nothing : (h : History) → Adds P h h
  Adds-nothing h = record { calls = []; history = sym (append-nil h); all = tt }

  pub Adds-one : (h : History) (c : Call) → P c → Adds P h (h ++ (c ∷ []))
  Adds-one h c p = record { calls = c ∷ []; history = refl; all = (p, tt) }

  pub Adds-trans : {h h' h'' : History} → Adds P h h' → Adds P h' h'' → Adds P h h''
  Adds-trans {h} {h'} {h''} a b = record {
    calls = a.calls ++ b.calls;
    history = b.history ∙ ap (λ l. l ++ b.calls) a.history ∙ append_assoc h a.calls b.calls;
    all = All-append P a.calls b.calls a.all b.all;
  }

  after :
      {A B : Type 0} (h h' : History) (r : Result A) (f : A → M B)
      → Adds P h h'
      → ((a : A) → r ≡ ok a → Adds P h' (f a h').1)
      → Adds P h (((λ k. (r, h')) >>= f) h).1
  after h h' (ok a) f x y = Adds-trans x (y a refl)
  after h h' (err e) f x y = x

  pub Adds-bind :
      {A B : Type 0} (m : M A) (f : A → M B) (h : History)
      → Adds P h (m h).1
      → ((a : A) → (m h).0 ≡ ok a → Adds P (m h).1 (f a (m h).1).1)
      → Adds P h ((m >>= f) h).1
  Adds-bind m f h x y = after h (m h).1 (m h).0 f x y

pub Adds-imp :
    {P Q : Call → Type 0} {h h' : History} → ((c : Call) → P c → Q c) → Adds P h h' → Adds Q h h'
Adds-imp f a = record { calls = a.calls; history = a.history; all = All-imp f a.calls a.all }

-- A property of what a computation returns and of the history that it leaves, by its first step.
pub ends-bind :
    {A B : Type 0} (P : Result B × History → Type 0) (m : M A) (f : A → M B) (h : History)
    → ((a : A) → (m h).0 ≡ ok a → P (f a (m h).1))
    → ((e : Error) → (m h).0 ≡ err e → P (err e, (m h).1))
    → P ((m >>= f) h)
ends-bind {A} P m f h good bad = split (m h).0 refl
  where
    split : (r : Result A) → (m h).0 ≡ r → P (((λ k. (r, (m h).1)) >>= f) h)
    split (ok a) e = good a e
    split (err x) e = bad x e

-- The result under the text of a wrapped step that succeeds.
pub of_wrap_result :
    {A : Type 0} (text : String) (r : Result A) (a : A) → wrap_result text r ≡ ok a → r ≡ ok a
unfolding wrap_result
of_wrap_result text (ok b) a e = e
of_wrap_result text (err f) a e = absurd (cc e)

-- A call that is added satisfies the predicate.
pub Adds-at :
    {P : Call → Type 0} {h h' : History} (a : Adds P h h') (calls : List Call) (c : Call)
    → h' ≡ h ++ calls
    → Memᴰ c calls
    → P c
Adds-at {P} {h} a calls c q m =
    let (d, e, p) =
      All-Memᴰ a.calls a.all
        (subst (Memᴰ c) (append_cancel_left h calls a.calls (sym q ∙ a.history)) m) in
    subst P (sym e) p
