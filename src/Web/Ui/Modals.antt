-- ===== src/Web/Ui/Modals.antt =====
-- uiSlice: the dialogues seen as a map from identifiers, and each action as a change of it.
use mathlib.Core.Path.{sym, fun_ext}
use mathlib.Core.Option
use pipeline_azure.Prelude.{
  Bool-cases, inr, inl, ◌≡◌, refl, ap, ◌∙◌, true, false, Option, none, some, String, List, [], ◌∷◌,
  ◌++◌, string_eq, ◌==◌, eq_iff, arith, update_first, if◌then◌else◌,
}
use pipeline_azure.Web.Ui.{
  put_opened, Modal, Page, Action, open_modal, close_modal, find_modal, opened_modal, open_modals,
  close_modals, reduce, run,
}

module _ {T : Type 0} where
  unfoldable pub modal_of : Page T → String → Option (Modal T)
  modal_of p id = find_modal id p.state.modals

  abbrev closed_modal : Modal T → Modal T
  closed_modal m = record m { is_open = false }

  -- Opening sets the dialogue, closing keeps what it shows, and no other action touches one.
  unfoldable pub change : (String → Option (Modal T)) → Action T → String → Option (Modal T)
  change m (open_modal id payload) j = if id == j then some (opened_modal id payload) else m j
  change m (close_modal id) j = if id == j then Option.map closed_modal (m j) else m j
  change m _ j = m j

  unfoldable pub changes : (String → Option (Modal T)) → List (Action T) → String → Option (Modal T)
  changes m [] = m
  changes m (a ∷ actions) = changes (change m a) actions

  find_modal-append :
      (modals : List (Modal T)) (new : Modal T) (j : String)
      → find_modal j modals ≡ none
      → find_modal j (modals ++ new ∷ []) ≡ (if new.id == j then some new else none)
  find_modal-append [] new j h = refl
  find_modal-append (m ∷ modals) new j h = ground (arith, find_modal-append modals new j, h)

  find_modal-append_other :
      (modals : List (Modal T)) (new : Modal T) (j : String)
      → (new.id == j) ≡ false
      → find_modal j (modals ++ new ∷ []) ≡ find_modal j modals
  find_modal-append_other [] new j h = ground arith
  find_modal-append_other (m ∷ modals) new j h =
      ground (arith, find_modal-append_other modals new j h)

  find_modal-update_first :
      (id j : String) (f : Modal T → Modal T) (modals : List (Modal T))
      → ((m : Modal T) → (f m).id ≡ m.id)
      → find_modal j (update_first (λ m. m.id == id) f modals)
        ≡ (if id == j then Option.map f (find_modal j modals) else find_modal j modals)
  find_modal-update_first id j f [] h = ground arith
  find_modal-update_first id j f (m ∷ modals) h = ground (
    arith,
    find_modal-update_first id j f modals h,
    h m,
    eq_iff m.id id,
    eq_iff m.id j,
    eq_iff id j,
  )

  find_modal-id :
      (id : String) (modals : List (Modal T)) (m : Modal T)
      → find_modal id modals ≡ some m
      → m.id ≡ id
  find_modal-id id [] m h = absurd (ground arith)
  find_modal-id id (x ∷ modals) m h = ground (arith, h, eq_iff x.id id, find_modal-id id modals m)

  find_modal-put_opened :
      (o : Option (Modal T)) (id : String) (payload : Option T) (modals : List (Modal T))
      (j : String)
      → find_modal id modals ≡ o
      → find_modal j (put_opened o id payload modals)
        ≡ (if id == j then some (opened_modal id payload) else find_modal j modals)
  find_modal-put_opened none id payload modals j e = elim (Bool-cases (id == j)) [
    | inl same ↦
        rw
          (
            find_modal-append modals (opened_modal id payload) j
                (rw (sym ((eq_iff id j).0 same)) e),
            same,
          )
          refl
    | inr other ↦ rw (find_modal-append_other modals (opened_modal id payload) j other, other) refl
  ]
  find_modal-put_opened (some m) id payload modals j e = ground (
    arith,
    find_modal-update_first id j (λ m. record m { is_open = true; payload = payload }) modals
        (λ m. refl),
    find_modal-id id modals m e,
    e,
    eq_iff id j,
  )

  find_modal-open_modals :
      (id : String) (payload : Option T) (modals : List (Modal T)) (j : String)
      → find_modal j (open_modals id payload modals)
        ≡ (if id == j then some (opened_modal id payload) else find_modal j modals)
  unfolding open_modals
  find_modal-open_modals id payload modals j =
      find_modal-put_opened (find_modal id modals) id payload modals j refl

  modal_of-reduce_at :
      (p : Page T) (a : Action T) (j : String) → modal_of (reduce p a) j ≡ change (modal_of p) a j
  unfolding modal_of change reduce close_modals
  modal_of-reduce_at p (open_modal id payload) j =
      find_modal-open_modals id payload p.state.modals j
  modal_of-reduce_at p (close_modal id) j =
      find_modal-update_first id j closed_modal p.state.modals λ m. refl
  modal_of-reduce_at p a j = refl

  -- After any actions each dialogue, looked up by its identifier, is what the same actions make of the
  -- map of before: the last opening sets what it shows, a closing keeps that, and no other action
  -- changes a dialogue.
  pub modal_of-run :
      (p : Page T) (actions : List (Action T))
      → modal_of (run p actions) ≡ changes (modal_of p) actions
  unfolding run changes
  modal_of-run p [] = refl
  modal_of-run p (a ∷ actions) =
      modal_of-run (reduce p a) actions
      ∙ ap (λ m. changes m actions) (fun_ext (modal_of-reduce_at p a))
