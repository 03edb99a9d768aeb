-- ===== src/Worker/Showing.antt =====
-- What the reader of an answer is shown.
use text.Mathlib.TextLemmas.{append-nil, nil-append, append_assoc}
use gist_agent.Base.Text.{concat}
use gist_agent.Base.{
  String, Bool, true, false, List, [], ◌∷◌, ◌≡◌, refl, sym, ap, subst, ◌∙◌, ◌⊎◌, inl, inr,
  Bool-cases, str_eq, eq_iff,
}
use gist_agent.Worker.Answer.{
  Mode, waiting, streaming, withheld, TextStream, new_stream, push_by, push, push_all,
  finish_answer, join_all,
}

-- After fragments that make up `sent`, of which `out` was shown.
abbrev IsShown : Mode → String → String → TextStream → Type 0
IsShown waiting sent out s = (out ≡ "") × (s.held ≡ sent) × (s.published ≡ false)
IsShown streaming sent out s = (out ≡ sent) × ((s.published ≡ true) ⊎ (sent ≡ ""))
IsShown withheld sent out s = (out ≡ "") × (s.published ≡ false)

finish-IsShown :
    (m : Mode) (sent out : String) (s : TextStream)
    → IsShown m sent out s
    → concat out (finish_answer sent s) ≡ sent
unfolding finish_answer
finish-IsShown waiting sent out s (o, h, p) = rw (o, p) (nil-append sent)
finish-IsShown withheld sent out s (o, p) = rw (o, p) (nil-append sent)
finish-IsShown streaming sent out s (o, inl p) = rw (p, o) (append-nil sent)
finish-IsShown streaming sent out s (o, inr e) = elim (Bool-cases s.published) [
  | inl p ↦ rw (p, o) (append-nil sent)
  | inr p ↦ rw (p, o, e) (nil-append "")
]

module _ (is_english has_chinese : String → Bool) where
  push_by-IsShown :
      (m : Mode) (fragment sent out : String) (s : TextStream)
      → s.mode ≡ m
      → IsShown m sent out s
      → IsShown
          (push_by is_english has_chinese m fragment s).1.mode
          (concat sent fragment)
          (concat out (push_by is_english has_chinese m fragment s).0)
          (push_by is_english has_chinese m fragment s).1
  push_by-IsShown streaming fragment sent out s e (o, p) =
      subst
        (λ m.
          IsShown m (concat sent fragment) (concat out fragment) (record s { published = true }))
        (sym e) (ap (λ x. concat x fragment) o, inl refl)
  push_by-IsShown withheld fragment sent out s e (o, p) =
      subst (λ m. IsShown m (concat sent fragment) (concat out "") s) (sym e)
        (append-nil out ∙ o, p)
  push_by-IsShown waiting fragment sent out s e (o, h, p) =
      let text = concat s.held fragment in
      let grown : text ≡ concat sent fragment = ap (λ x. concat x fragment) h in
      elim (Bool-cases (is_english text)) [
        | inl b ↦ rw b (append-nil out ∙ o, p)
        | inr b ↦ elim (Bool-cases (has_chinese text)) [
          | inl c ↦ rw (b, c) (ap (λ x. concat x text) o ∙ nil-append text ∙ grown, inl refl)
          | inr c ↦
              rw (b, c)
                (subst
                  (λ m. IsShown m (concat sent fragment) (concat out "") (record s { held = text }))
                  (sym e) (append-nil out ∙ o, grown, p))
        ]
      ]

  push-IsShown :
      (fragment sent out : String) (s : TextStream)
      → IsShown s.mode sent out s
      → IsShown
          (push is_english has_chinese fragment s).1.mode
          (concat sent fragment)
          (concat out (push is_english has_chinese fragment s).0)
          (push is_english has_chinese fragment s).1
  unfolding push
  push-IsShown fragment sent out s h = elim (Bool-cases (str_eq fragment "")) [
    | inr b ↦ rw b (push_by-IsShown s.mode fragment sent out s refl h)
    | inl b ↦ rw b (
        subst (λ t. IsShown s.mode t (concat out "") s)
          (sym (append-nil sent) ∙ ap (concat sent) (sym ((eq_iff fragment "").0 b)))
          (subst (λ o. IsShown s.mode sent o s) (sym (append-nil out)) h))
  ]

  push_all-IsShown :
      (fs : List String) (sent out : String) (s : TextStream)
      → IsShown s.mode sent out s
      → IsShown
          (push_all is_english has_chinese fs s).1.mode
          (concat sent (join_all fs))
          (concat out (push_all is_english has_chinese fs s).0)
          (push_all is_english has_chinese fs s).1
  unfolding push_all
  push_all-IsShown [] sent out s h =
      subst (λ t. IsShown s.mode t (concat out "") s) (sym (append-nil sent))
        (subst (λ o. IsShown s.mode sent o s) (sym (append-nil out)) h)
  push_all-IsShown (f ∷ fs) sent out s h =
      let t = (push is_english has_chinese f s).1 in
      let o = (push is_english has_chinese f s).0 in
      let rest = push_all is_english has_chinese fs t in
      subst (λ x. IsShown rest.1.mode x (concat out (concat o rest.0)) rest.1)
        (append_assoc sent f (join_all fs))
        (subst (λ x. IsShown rest.1.mode (concat (concat sent f) (join_all fs)) x rest.1)
          (append_assoc out o rest.0)
          (push_all-IsShown fs (concat sent f) (concat out o) t (push-IsShown f sent out s h)))

  new_stream-IsShown :
      (chinese : Bool) → IsShown (new_stream chinese).mode "" "" (new_stream chinese)
  new_stream-IsShown true = (refl, refl, refl)
  new_stream-IsShown false = (refl, inr refl)

  -- Whatever the language that is asked for, the fragments of an answer and the tests of its language,
  -- what the fragments show, with what `finish` shows when it gets the joined fragments, is those:
  -- nothing is lost or shown twice.
  pub push_all-finish :
      (chinese : Bool) (fs : List String)
      → concat
          (push_all is_english has_chinese fs (new_stream chinese)).0
          (finish_answer (join_all fs) (push_all is_english has_chinese fs (new_stream chinese)).1)
        ≡ join_all fs
  push_all-finish chinese fs =
      let last = push_all is_english has_chinese fs (new_stream chinese) in
      finish-IsShown last.1.mode (join_all fs) last.0 last.1 (
        subst (λ x. IsShown last.1.mode x last.0 last.1) (nil-append (join_all fs))
          (subst (λ x. IsShown last.1.mode (concat "" (join_all fs)) x last.1) (nil-append last.0)
            (push_all-IsShown fs "" "" (new_stream chinese) (new_stream-IsShown chinese))))
