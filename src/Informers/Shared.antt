-- ===== src/Informers/Shared.antt =====
-- A factory that is shut down starts nothing, and an informer that was handed out stays.
use knative_source.Base.{
  ◌≡◌, refl, ◌∙◌, ap, Bool, true, false, Option, none, some, [], ◌∷◌, Str, str_eq, str_beq_iff,
  eq_refl, ◌==◌, arith, Bool-cases, inl, inr,
}
use knative_source.Base.Dict.{Dict, lookup, lookup-insert}
use knative_source.Base.Duration.{Duration}
use knative_source.Informers.{
  Kinds, Factory, start, start_unless, informer_from, start_one, start_loop, shutdown, informer_for,
}
use knative_source.Informers.Steps.{Step, starts, shuts_down, requests, Steps, stays, goes}

module _ (k : Kinds) where
  start_loop-informers :
      (is : Dict Str k.Informer) (f : Factory k) → (start_loop k is f).informers ≡ f.informers
  unfolding start_loop start_one
  start_loop-informers [] f = refl
  start_loop-informers ((t, i) ∷ is) f = ground (arith, start_loop-informers is (start_one k t f))

  start_unless-informers :
      (down : Bool) (f : Factory k) → (start_unless k down f).informers ≡ f.informers
  unfolding start_unless
  start_unless-informers true f = refl
  start_unless-informers false f = start_loop-informers f.informers f

  start_shut : (b : Bool) (f : Factory k) → b ≡ true → start_unless k b f ≡ f
  unfolding start_unless
  start_shut true f h = refl
  start_shut false f h = ground arith

  module _ (set_transform : Option k.Transform → k.Informer → k.Informer) where
    -- A shutdown that lasts, and nothing run since.
    abbrev StaysShut : Factory k → Factory k → Type 0
    StaysShut f g = (g.shutting_down ≡ f.shutting_down) × (g.runs ≡ f.runs)

    informer_from-StaysShut :
        (t : Str) (new_func : k.Client → Duration → k.Informer) (f : Factory k)
        (o : Option k.Informer)
        → StaysShut f (informer_from k set_transform t new_func f o).1
    unfolding informer_from
    informer_from-StaysShut t new_func f none = (refl, refl)
    informer_from-StaysShut t new_func f (some i) = (refl, refl)

    step-shut :
        (f g : Factory k)
        → Step k set_transform f g
        → f.shutting_down ≡ true
        → (g.shutting_down ≡ true) × (g.runs ≡ f.runs)
    unfolding start shutdown informer_for
    step-shut f g (starts f') down =
        let same = start_shut f.shutting_down f down in
        (ap (λ (x : Factory k). x.shutting_down) same ∙ down, ap (λ (x : Factory k). x.runs) same)
    step-shut f g (shuts_down f') down = (refl, refl)
    step-shut f g (requests t new_func f') down =
        let (still, same) = informer_from-StaysShut t new_func f (lookup t f.informers) in
        (still ∙ down, same)

    -- Behind a `Shutdown`, whatever its clients call, a factory starts no further informer.
    pub factory_shut_down :
        (f g : Factory k) → Steps k set_transform f g → f.shutting_down ≡ true → g.runs ≡ f.runs
    factory_shut_down f g (stays f') down = refl
    factory_shut_down f g (goes f' g' h' s ss) down =
        let (still, same) = step-shut f g' s down in factory_shut_down g' g ss still ∙ same

    informer_from-keeps :
        (t u : Str) (new_func : k.Client → Duration → k.Informer) (f : Factory k) (i : k.Informer)
        (o : Option k.Informer)
        → lookup u f.informers ≡ o
        → lookup t f.informers ≡ some i
        → lookup t (informer_from k set_transform u new_func f o).1.informers ≡ some i
    unfolding informer_from
    informer_from-keeps t u new_func f i (some j) known h = h
    informer_from-keeps t u new_func f i none unknown h = elim (Bool-cases (u == t)) [
      | inl same ↦
          absurd (cc (ap (λ x. lookup x f.informers) ((str_beq_iff u t).0 same), unknown, h))
      | inr apart ↦ rw (lookup-insert, apart) h
    ]

    step-lookup :
        (t : Str) (i : k.Informer) (f g : Factory k)
        → Step k set_transform f g
        → lookup t f.informers ≡ some i
        → lookup t g.informers ≡ some i
    unfolding start shutdown informer_for
    step-lookup t i f g (starts f') h =
        ap (λ m. lookup t m) (start_unless-informers f.shutting_down f) ∙ h
    step-lookup t i f g (shuts_down f') h = h
    step-lookup t i f g (requests u new_func f') h =
        informer_from-keeps t u new_func f i (lookup u f.informers) refl h

    Steps-lookup :
        (t : Str) (i : k.Informer) (f g : Factory k)
        → Steps k set_transform f g
        → lookup t f.informers ≡ some i
        → lookup t g.informers ≡ some i
    Steps-lookup t i f g (stays f') h = h
    Steps-lookup t i f g (goes f' g' h' s ss) h =
        Steps-lookup t i g' g ss (step-lookup t i f g' s h)

    informer_from-lookup :
        (t : Str) (new_func : k.Client → Duration → k.Informer) (f : Factory k)
        (o : Option k.Informer)
        → lookup t f.informers ≡ o
        → let (i, g) = informer_from k set_transform t new_func f o in lookup t g.informers ≡ some i
    unfolding informer_from
    informer_from-lookup t new_func f (some i) known = known
    informer_from-lookup t new_func f none unknown = rw (lookup-insert, eq_refl t) refl

    informer_from_known :
        (t : Str) (new_func : k.Client → Duration → k.Informer) (f : Factory k) (i : k.Informer)
        (o : Option k.Informer)
        → o ≡ some i
        → (informer_from k set_transform t new_func f o).0 ≡ i
    unfolding informer_from
    informer_from_known t new_func f i none h = ground arith
    informer_from_known t new_func f i (some j) h = ground arith

    -- An informer that a factory has handed out for a type is the one that it hands out for the type
    -- at any later time, whatever function is to make it then.
    pub informer_for_shared :
        (t : Str) (new_func later_func : k.Client → Duration → k.Informer) (f g : Factory k)
        → Steps k set_transform (informer_for k set_transform t new_func f).1 g
        → (informer_for k set_transform t later_func g).0
          ≡ (informer_for k set_transform t new_func f).0
    unfolding informer_for
    informer_for_shared t new_func later_func f g steps =
        informer_from_known t later_func g _ (lookup t g.informers) (
          Steps-lookup t _ _ g steps
            (informer_from-lookup t new_func f (lookup t f.informers) refl))
