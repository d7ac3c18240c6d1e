-- ===== src/Shell/Glib.antt =====
-- What lab1/command.c uses of GLib: `GList` and `GQueue`, which are not code of the repository. The
-- laws say what the documentation of each function says, through the elements that a container
-- holds, in order. A copy (`g_list_copy`, `g_queue_copy`) holds the same elements, and what happens
-- to it leaves the original, so it is the value itself here.
use operating_system_fa_maf.Common.{
  ℕ, ◌≡◌, Bool, true, false, List, [], ◌∷◌, ◌++◌, Option, some, length,
}

-- `nil` is NULL or `g_queue_new`, `is_nil` the test for it; `append` is `g_list_append` and
-- `g_queue_push_tail`; `rest` is `g_list_delete_link` of the first link and `g_queue_pop_head`;
-- `first` is `g_list_nth_data` at 0 and `g_queue_peek_head`; `count` is `g_list_length` and
-- `g_queue_get_length`; `remove` is `g_list_remove`, which takes out the first equal element.
pub record Container (A : Type 0) : Type 1 where
  pub Carrier : Type 0
  pub items : Carrier → List A
  pub nil : Carrier
  pub is_nil : Carrier → Bool
  pub append : Carrier → A → Carrier
  pub rest : Carrier → Carrier
  pub first : Carrier → Option A
  pub count : Carrier → ℕ
  pub remove : Carrier → A → Carrier
  pub items-nil : items nil ≡ []
  pub is_nil-nil : (c : Carrier) → items c ≡ [] → is_nil c ≡ true
  pub is_nil-cons : (c : Carrier) (a : A) (as' : List A) → items c ≡ a ∷ as' → is_nil c ≡ false
  pub items-append : (c : Carrier) (a : A) → items (append c a) ≡ items c ++ a ∷ []
  pub items-rest : (c : Carrier) (a : A) (as' : List A) → items c ≡ a ∷ as' → items (rest c) ≡ as'
  pub first-cons : (c : Carrier) (a : A) (as' : List A) → items c ≡ a ∷ as' → first c ≡ some a
  pub count-items : (c : Carrier) → count c ≡ length (items c)
  pub items-remove :
      (c : Carrier) (a : A) (as' : List A) → items c ≡ a ∷ as' → items (remove c a) ≡ as'
