-- ===== src/Persist/Correct.antt =====
-- `run` on a node and `perform` on the value that is made of it.
use cmm_sdk.Common.{◌∷◌, ◌≡◌, ap, ◌∙◌, true, false, some, [], Option-cases, inl, inr, some_inj}
use cmm_sdk.Persist.{Node, Library, IsLawful, make, Steps, after_loop, after_inner, perform}
use cmm_sdk.Persist.Reads.{
  follow_node, last_node, text_of, flag_of, number_of, items_of, texts_of, items_by, run, Fits,
}
use cmm_sdk.Persist.Made.{follow-make, Way, Reads, read_from-make}
use cmm_sdk.Persist.Typed.{text_at, flag_at, number_at}
use cmm_sdk.Persist.Arrays.{elements-make, each_string-make, each_item-make}

module _ (L : Library) (law : IsLawful L) where
  -- With a lawful library, the steps that `run` can do on a node whose numbers fit an `int` end
  -- without an exception on the JSON value made of it, with the same result.
  pub perform-make :
      {S : Type 0} (steps : Steps S) (n : Node) (s t : S)
      → Fits n
      → run steps n s ≡ some t
      → perform L steps (make L n) s ≡ (true, t)
  unfolding run perform Reads Fits make Way
  perform-make Steps.done n s t fits h = ap (λ r. (true, r)) (some_inj h)
  perform-make (Steps.read_string hops hop put rest) n s t fits h =
      elim (Option-cases (text_of (last_node hops hop n))) [
        | inl e ↦ cc (rw (e, run) at h)
        | inr (a, e) ↦
            let got =
              read_from-make L law [] L.json.as_string hops hop n (Node.string a) a fits
                (text_at _ a e) (λ f. law.as-string a) in
            rw (got, perform) (perform-make rest n (put s a) t fits (rw (e, run) at h))
      ]
  perform-make (Steps.read_bool hops hop put rest) n s t fits h =
      elim (Option-cases (flag_of (last_node hops hop n))) [
        | inl e ↦ cc (rw (e, run) at h)
        | inr (a, e) ↦
            let got =
              read_from-make L law false L.json.as_bool hops hop n (Node.boolean a) a fits
                (flag_at _ a e) (λ f. law.as-boolean a) in
            rw (got, perform) (perform-make rest n (put s a) t fits (rw (e, run) at h))
      ]
  perform-make (Steps.read_number hops hop put rest) n s t fits h =
      elim (Option-cases (number_of (last_node hops hop n))) [
        | inl e ↦ cc (rw (e, run) at h)
        | inr (a, e) ↦
            let got =
              read_from-make L law 0 L.as_integer hops hop n (Node.number a) a fits
                (number_at _ a e) (λ f. law.as-number a f) in
            rw (got, perform) (perform-make rest n (put s a) t fits (rw (e, run) at h))
      ]
  perform-make (Steps.read_strings guarded hops add rest) n s t fits h =
      elim (Option-cases (items_of (follow_node hops n))) [
        | inl e ↦ cc (rw (e, run) at h)
        | inr (xs, e) ↦ elim (Option-cases (texts_of xs)) [
          | inl e2 ↦ cc (rw (e2, run) at (rw (e, run) at h))
          | inr (ts, e2) ↦
              let (got, _) = elements-make L law guarded hops n xs fits e in
              rw (got, perform)
                (ap (after_loop L (add s) (perform L rest (make L n)))
                    (each_string-make L law xs ts e2)
                  ∙ perform-make rest n (add s ts) t fits (rw (e2, run) at (rw (e, run) at h)))
        ]
      ]
  perform-make (Steps.read_items guarded hops fresh steps add rest) n s t fits h =
      elim (Option-cases (items_of (follow_node hops n))) [
        | inl e ↦ cc (rw (e, run) at h)
        | inr (xs, e) ↦ elim (Option-cases (items_by (λ m. run steps m fresh) xs)) [
          | inl e2 ↦ cc (rw (e2, run) at (rw (e, run) at h))
          | inr (ts, e2) ↦
              let (got, each) = elements-make L law guarded hops n xs fits e in
              let all =
                each_item-make L law (λ m. run steps m fresh) (λ w. perform L steps w fresh) xs ts
                  (λ m r f g. perform-make steps m fresh r f g) each e2 in
              rw (got, perform)
                (ap (after_loop L (add s) (perform L rest (make L n))) all
                  ∙ perform-make rest n (add s ts) t fits (rw (e2, run) at (rw (e, run) at h)))
        ]
      ]
  perform-make (Steps.inner hop part put steps rest) n s t fits h =
      elim (Option-cases (follow_node (hop ∷ []) n)) [
        | inl e ↦ cc (rw (e, run) at h)
        | inr (m, e) ↦ elim (Option-cases (run steps m (part s))) [
          | inl e2 ↦ cc (rw (e2, run) at (rw (e, run) at h))
          | inr (r, e2) ↦
              let (way, fits_m) = follow-make L law (hop ∷ []) n m fits e in
              rw (way, perform)
                (ap (after_inner L (put s) (perform L rest (make L n)))
                    (perform-make steps m (part s) r fits_m e2)
                  ∙ perform-make rest n (put s r) t fits (rw (e2, run) at (rw (e, run) at h)))
        ]
      ]
  perform-make (Steps.update f rest) n s t fits h = perform-make rest n (f s) t fits h
  perform-make (Steps.inherit part put steps rest) n s t fits h =
      elim (Option-cases (run steps n (part s))) [
        | inl e ↦ cc (rw (e, run) at h)
        | inr (r, e) ↦
            rw (perform-make steps n (part s) r fits e, perform)
              (perform-make rest n (put s r) t fits (rw (e, run) at h))
      ]
