-- ===== src/Gin/Decided.antt =====
-- An engine with a tree for GET without routes and one for POST, and a request of the wrong method at it.
use gocore.Common.{ℕ, zero, suc, true, false, List, [], ◌∷◌, Option, none, some}
use gocore.Gin.Maps.{Str}
use gocore.Gin.Context.{Handler}
use gocore.Gin.Requests.{Engine, Request, decide, not_allowed, tree_of, is_elsewhere}
use gocore.Gin.Decisions.{IsRight, decide-IsRight}

-- `GET` and `POST`
abbrev get_text : Str
get_text = 71 ∷ 69 ∷ 84 ∷ []

abbrev post_text : Str
post_text = 80 ∷ 79 ∷ 83 ∷ 84 ∷ []

abbrev handlers_of : ℕ → Option (List Handler)
handlers_of zero = none
handlers_of (suc n) = some (n ∷ [])

abbrev site : Engine ℕ
site = record {
  use_raw_path = false;
  unescape_path_values = true;
  remove_extra_slash = false;
  redirect_trailing_slash = true;
  redirect_fixed_path = false;
  handle_method_not_allowed = true;
  trees = (get_text, 0) ∷ (post_text, 6) ∷ [];
  all_no_method = [];
  all_no_route = [];
  get_value = λ n path unescape. record {
    params = none;
    handlers = handlers_of n;
    full_path = path;
    tsr = false;
  };
  find_case_insensitive_path = λ n path trailing. none;
  clean_path = λ p. p;
  path_clean = λ p. p;
  safe_prefix = λ p. p;
}

abbrev asked : Request
asked = record { method = get_text; path = 47 ∷ 97 ∷ []; raw_path = []; forwarded_prefix = [] }

decide-IsRight_example : IsRight site asked not_allowed
unfolding decide tree_of is_elsewhere
decide-IsRight_example = decide-IsRight site asked
