-- ===== src/Web/Ui/Reload.antt =====
-- uiSlice: what a reload of the page finds.
use pipeline_azure.Prelude.{
  ◌≡◌, refl, ap, ◌∙◌, some, String, List, [], ◌∷◌, or_default, Bool-cases, inl, inr, string_eq,
  ◌==◌,
}
use pipeline_azure.Storage.{get_item, set_item, get_item-set_item}
use pipeline_azure.Web.Ui.{
  Page, Action, set_theme, toggle_theme, set_language, light, dark, en, tr, initial_state,
  put_theme, reduce, run,
}

module _ {T : Type 0} where
  -- A reload would find the theme and the language that the page shows.
  pub record IsPersisted (p : Page T) : Type 0 where
    pub theme : or_default (get_item "theme" p.storage) "light" ≡ p.state.theme
    pub language : or_default (get_item "language" p.storage) "en" ≡ p.state.language

  put_theme-IsPersisted :
      (theme : String) (p : Page T)
      → or_default (some theme) "light" ≡ theme
      → IsPersisted p
      → IsPersisted (put_theme theme p)
  unfolding put_theme
  put_theme-IsPersisted theme p h s = record {
    theme = ap (λ o. or_default o "light") (get_item-set_item "theme" "theme" theme p.storage) ∙ h;
    language =
        ap (λ o. or_default o "en") (get_item-set_item "theme" "language" theme p.storage)
        ∙ s.language;
  }

  put_language-IsPersisted :
      (language : String) (p : Page T)
      → or_default (some language) "en" ≡ language
      → IsPersisted p
      → IsPersisted (record p {
        state = record p.state { language = language };
        storage = set_item "language" language p.storage;
      })
  put_language-IsPersisted language p h s = record {
    theme =
        ap (λ o. or_default o "light") (get_item-set_item "language" "theme" language p.storage)
        ∙ s.theme;
    language =
        ap (λ o. or_default o "en") (get_item-set_item "language" "language" language p.storage)
        ∙ h;
  }

  reduce-IsPersisted : (p : Page T) (a : Action T) → IsPersisted p → IsPersisted (reduce p a)
  unfolding reduce
  reduce-IsPersisted p (set_theme light) s = put_theme-IsPersisted "light" p refl s
  reduce-IsPersisted p (set_theme dark) s = put_theme-IsPersisted "dark" p refl s
  reduce-IsPersisted p toggle_theme s = elim (Bool-cases (p.state.theme == "light")) [
    | inl h ↦ rw h (put_theme-IsPersisted "dark" p refl s)
    | inr h ↦ rw h (put_theme-IsPersisted "light" p refl s)
  ]
  reduce-IsPersisted p (set_language en) s = put_language-IsPersisted "en" p refl s
  reduce-IsPersisted p (set_language tr) s = put_language-IsPersisted "tr" p refl s
  reduce-IsPersisted p a s = record { theme = s.theme; language = s.language }

  run-IsPersisted :
      (p : Page T) (actions : List (Action T)) → IsPersisted p → IsPersisted (run p actions)
  unfolding run
  run-IsPersisted p [] s = s
  run-IsPersisted p (a ∷ actions) s =
      run-IsPersisted (reduce p a) actions (reduce-IsPersisted p a s)

  -- From a page that shows the theme and the language that a reload would find: after any actions a
  -- reload finds the theme and the language that the page shows then.
  reload-run :
      (p : Page T) (actions : List (Action T))
      → IsPersisted p
      → ((initial_state {T = T} (run p actions).storage).theme ≡ (run p actions).state.theme)
        × ((initial_state {T = T} (run p actions).storage).language
            ≡ (run p actions).state.language)
  unfolding initial_state
  reload-run p actions s =
      ((run-IsPersisted p actions s).theme, (run-IsPersisted p actions s).language)
