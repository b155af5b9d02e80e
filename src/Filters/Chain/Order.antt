-- ===== src/Filters/Chain/Order.antt =====
-- The order in which a chain runs its filters (src/filters/chain.rs).
use mathlib.Core.List.{append-nil, append_assoc}
use quilkin.Common.{◌≡◌, refl, ap, sym, ◌∙◌, Option, none, some, List, [], ◌∷◌, ◌++◌}
use quilkin.Filters.{ReadContext, WriteContext, Filter, Verdict, passed, failed}
use quilkin.Filters.Chain.{read_all, write_all, rev, chain_read, chain_write, all_endpoints}

-- What runs next, unless a filter refused or panicked.
abbrev pub then_run :
    {C S : Type 0}
    → Option (Verdict × C × S)
    → (C → S → Option (Verdict × C × S))
    → Option (Verdict × C × S)
then_run none next = none
then_run (some (passed, ctx, s)) next = next ctx s
then_run (some (failed e, ctx, s)) next = some (failed e, ctx, s)

module _ {U R S : Type 0} where
  pub read_all-append :
      (xs ys : List (Filter U R S)) (ctx : ReadContext U R) (s : S)
      → read_all (xs ++ ys) ctx s ≡ then_run (read_all xs ctx s) (read_all ys)
  unfolding read_all
  read_all-append [] ys ctx s = refl
  read_all-append (x ∷ xs) ys ctx s = after (read_all-append xs ys) (x.read ctx s)
    where
      after :
          ((ctx' : ReadContext U R) (s' : S)
            → read_all (xs ++ ys) ctx' s' ≡ then_run (read_all xs ctx' s') (read_all ys))
          → (o : Option (Verdict × ReadContext U R × S))
          → (elim o [
            | none ↦ none
            | some (verdict, ctx', s') ↦ elim verdict [
              | failed e ↦ some (failed e, ctx', s')
              | passed ↦ read_all (xs ++ ys) ctx' s'
            ]
          ])
            ≡ then_run
                (elim o [
                  | none ↦ none
                  | some (verdict, ctx', s') ↦ elim verdict [
                    | failed e ↦ some (failed e, ctx', s')
                    | passed ↦ read_all xs ctx' s'
                  ]
                ])
                (read_all ys)
      after ih none = refl
      after ih (some (failed e, ctx', s')) = refl
      after ih (some (passed, ctx', s')) = ih ctx' s'

  write_all-append :
      (xs ys : List (Filter U R S)) (ctx : WriteContext) (s : S)
      → write_all (xs ++ ys) ctx s ≡ then_run (write_all xs ctx s) (write_all ys)
  unfolding write_all
  write_all-append [] ys ctx s = refl
  write_all-append (x ∷ xs) ys ctx s = after (write_all-append xs ys) (x.write ctx s)
    where
      after :
          ((ctx' : WriteContext) (s' : S)
            → write_all (xs ++ ys) ctx' s' ≡ then_run (write_all xs ctx' s') (write_all ys))
          → (o : Option (Verdict × WriteContext × S))
          → (elim o [
            | none ↦ none
            | some (verdict, ctx', s') ↦ elim verdict [
              | failed e ↦ some (failed e, ctx', s')
              | passed ↦ write_all (xs ++ ys) ctx' s'
            ]
          ])
            ≡ then_run
                (elim o [
                  | none ↦ none
                  | some (verdict, ctx', s') ↦ elim verdict [
                    | failed e ↦ some (failed e, ctx', s')
                    | passed ↦ write_all xs ctx' s'
                  ]
                ])
                (write_all ys)
      after ih none = refl
      after ih (some (failed e, ctx', s')) = refl
      after ih (some (passed, ctx', s')) = ih ctx' s'

  rev-append : (xs ys : List (Filter U R S)) → rev (xs ++ ys) ≡ rev ys ++ rev xs
  rev-append [] ys = sym (append-nil (rev ys))
  rev-append (x ∷ xs) ys =
      ap (λ l. l ++ x ∷ []) (rev-append xs ys) ∙ append_assoc (rev ys) (rev xs) (x ∷ [])

  -- A packet that is read goes through the first filters, then through the rest, unless one of the
  -- first refuses it, whose answer is the chain's; only after the last are all endpoints filled in.
  pub chain_read-append :
      (xs ys : List (Filter U R S)) (ctx : ReadContext U R) (s : S)
      → chain_read (xs ++ ys) ctx s ≡ then_run (read_all xs ctx s) (chain_read ys)
  unfolding chain_read
  chain_read-append xs ys ctx s =
      ap finish (read_all-append xs ys ctx s) ∙ after (read_all xs ctx s)
    where
      finish : Option (Verdict × ReadContext U R × S) → Option (Verdict × ReadContext U R × S)
      finish o = elim o [
        | none ↦ none
        | some (verdict, ctx', s') ↦ elim verdict [
          | failed e ↦ some (failed e, ctx', s')
          | passed ↦ some (passed, all_endpoints ctx', s')
        ]
      ]

      after :
          (o : Option (Verdict × ReadContext U R × S))
          → finish (then_run o (read_all ys)) ≡ then_run o (chain_read ys)
      after none = refl
      after (some (failed e, ctx', s')) = refl
      after (some (passed, ctx', s')) = refl

  -- A packet that is written goes through the filters from the last to the first, until one refuses.
  pub chain_write-append :
      (xs ys : List (Filter U R S)) (ctx : WriteContext) (s : S)
      → chain_write (xs ++ ys) ctx s ≡ then_run (chain_write ys ctx s) (chain_write xs)
  unfolding chain_write
  chain_write-append xs ys ctx s =
      ap (λ fs. write_all fs ctx s) (rev-append xs ys) ∙ write_all-append (rev ys) (rev xs) ctx s
