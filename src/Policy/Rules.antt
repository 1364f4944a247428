-- ===== src/Policy/Rules.antt =====
-- The built-in rules of backend/core/policy.py and the conditions of a workspace's policies. Texts are
-- lists of code points. `urlparse`, `fnmatch`, `basename` and `lower` of Python are parameters.
use local_mind.Base.{
  before_colon, ℕ, Bool, true, false, not, ◌&&◌, ◌||◌, List, [], ◌∷◌, ◌++◌, map, Option, none, some,
  leb, ◌==◌, if◌then◌else◌,
}
use local_mind.Base.{Text, codes, eq_text, starts_with, find}

-- What is read of a URL.
pub record Url : Type 0 where
  pub scheme : Text
  pub netloc : Text

-- `none` is an exception.
pub record Std : Type 0 where
  pub urlparse : Text → Option Url
  pub fnmatch : (name pattern : Text) → Bool
  pub basename : Text → Text
  pub lower : Text → Text

-- An argument of a tool: a text, a dict, of which the entries that are texts are read, or another value.
pub data Arg : Type 0 where
  text : Text → Arg
  dict : List (Text × Option Text) → Arg
  value : Arg

pub record Context : Type 0 where
  pub workspace_id : ℕ
  pub deployment_mode : Text
  pub job_id : Text
  pub node_id : ℕ
  pub job_classification : Option Text
  pub tool_call_count : ℕ
  pub delete_count : ℕ

abbrev pub one_of : Text → List Text → Bool
one_of t [] = false
one_of t (u ∷ texts) = eq_text t u || one_of t texts

abbrev pub egress_tools : List Text
egress_tools = codes "web_search" ∷ codes "browser" ∷ codes "gmail" ∷ codes "gemini" ∷ []

abbrev pub delete_tools : List Text
delete_tools = codes "delete_file" ∷ codes "remove_file" ∷ codes "file_delete" ∷ codes "unlink" ∷ []

abbrev pub url_tools : List Text
url_tools = codes "browser" ∷ codes "web_search" ∷ []

abbrev pub write_tools : List Text
write_tools =
    codes "write_file"
    ∷ codes "save_file"
    ∷ codes "file_write"
    ∷ codes "create_file"
    ∷ codes "append_file"
    ∷ []

abbrev pub url_arg_keys : List Text
url_arg_keys = codes "url" ∷ codes "query" ∷ codes "href" ∷ codes "uri" ∷ codes "navigate" ∷ []

abbrev pub path_arg_keys : List Text
path_arg_keys =
    codes "path"
    ∷ codes "file_path"
    ∷ codes "filepath"
    ∷ codes "filename"
    ∷ codes "dest"
    ∷ codes "destination"
    ∷ []

abbrev pub max_tool_calls_per_node : ℕ
max_tool_calls_per_node = 100

abbrev pub max_deletes_per_node : ℕ
max_deletes_per_node = 10

-- `isinstance(val, str) and val`
abbrev pub text_of : Option Arg → Option Text
text_of (some (Arg.text (c ∷ t))) = some (c ∷ t)
text_of _ = none

abbrev pub or_else : Option Text → Option Text → Option Text
or_else (some t) later = some t
or_else none later = later

-- The first of the keys under which there is a text.
abbrev pub first_text : (keys : List Text) → List (Text × Arg) → Option Text
first_text [] tool_args = none
first_text (key ∷ keys) tool_args =
    or_else (text_of (find key tool_args)) (first_text keys tool_args)

abbrev pub inner_text : Option (Option Text) → Option Text
inner_text (some (some (c ∷ t))) = some (c ∷ t)
inner_text _ = none

abbrev pub first_inner : (keys : List Text) → List (Text × Option Text) → Option Text
first_inner [] entries = none
first_inner (key ∷ keys) entries =
    or_else (inner_text (find key entries)) (first_inner keys entries)

-- One level deep.
abbrev pub nested_text : List (Text × Arg) → Option Text
nested_text [] = none
nested_text ((k, Arg.text t) ∷ tool_args) = nested_text tool_args
nested_text ((k, Arg.value) ∷ tool_args) = nested_text tool_args
nested_text ((k, Arg.dict entries) ∷ tool_args) =
    or_else (first_inner path_arg_keys entries) (nested_text tool_args)

unfoldable pub extract_path : List (Text × Arg) → Option Text
extract_path tool_args = or_else (first_text path_arg_keys tool_args) (nested_text tool_args)

unfoldable pub extract_url : List (Text × Arg) → Option Text
extract_url tool_args = first_text url_arg_keys tool_args

abbrev pub host_of : Std → Url → Text
host_of std url = std.lower (before_colon url.netloc)

abbrev pub ssrf_block_exact : List Text
ssrf_block_exact = codes "localhost" ∷ codes "127.0.0.1" ∷ []

abbrev pub ssrf_block_prefix : Text
ssrf_block_prefix = codes "169.254."

unfoldable pub is_ssrf_url : Std → Text → Bool
is_ssrf_url std url = elim (std.urlparse url) [
  | none ↦ false
  | some parsed ↦
      eq_text parsed.scheme (codes "file")
      || (one_of (host_of std parsed) ssrf_block_exact
          || starts_with (host_of std parsed) ssrf_block_prefix)
]

-- `part in text`
abbrev pub is_within : (part : Text) → Text → Bool
is_within part [] = starts_with [] part
is_within part (c ∷ t) = starts_with (c ∷ t) part || is_within part t

-- `path.replace("\\", "/")`
abbrev pub norm_path : Text → Text
norm_path path = map (λ c. if c == 92 then 47 else c) path

abbrev pub is_outside : (job_id : Text) → Text → Bool
is_outside job_id path =
    not (is_within (codes "/jobs/" ++ job_id) (norm_path path))
    && not (is_within (codes "LocalMind_Workspace") (norm_path path))

-- Whether a path or URL that is there has a property.
abbrev pub if_any : (Text → Bool) → Option Text → Bool
if_any holds none = false
if_any holds (some t) = holds t

unfoldable pub rate_limited : Context → Bool
rate_limited context = leb max_tool_calls_per_node context.tool_call_count

unfoldable pub bulk_delete : (tool_name : Text) → Context → Bool
bulk_delete tool_name context =
    one_of tool_name delete_tools && leb max_deletes_per_node context.delete_count

unfoldable pub egress_blocked : (tool_name : Text) → Context → Bool
egress_blocked tool_name context =
    eq_text context.deployment_mode (codes "strict-local") && one_of tool_name egress_tools

unfoldable pub ssrf_blocked : Std → (tool_name : Text) → (tool_args : List (Text × Arg)) → Bool
unfolding extract_url is_ssrf_url
ssrf_blocked std tool_name tool_args =
    one_of tool_name url_tools && if_any (is_ssrf_url std) (extract_url tool_args)

unfoldable pub write_blocked : (tool_name : Text) → (tool_args : List (Text × Arg)) → Context → Bool
unfolding extract_path
write_blocked tool_name tool_args context =
    one_of tool_name write_tools && if_any (is_outside context.job_id) (extract_path tool_args)

-- Whether a built-in rule fires; each of them denies.
unfoldable pub check_builtin_policies :
    Std → (tool_name : Text) → (tool_args : List (Text × Arg)) → Context → Bool
check_builtin_policies std tool_name tool_args context =
    rate_limited context
    || (bulk_delete tool_name context
        || (egress_blocked tool_name context
            || (ssrf_blocked std tool_name tool_args || write_blocked tool_name tool_args context)))

-- A value that is a text or a list of texts is the list of them. `unknown` is a key that is skipped.
pub data Condition : Type 0 where
  tool tool_not deployment_mode job_classification domain_not_in : List Text → Condition
  path_matches : (pattern : Text) → Condition
  tool_requires_egress : Bool → Condition
  unknown : Condition

abbrev pub equals : Bool → Bool → Bool
equals true b = b
equals false b = not b

-- The URL's host, the empty text where it cannot be read.
abbrev pub url_host : Std → Text → Text
url_host std url = elim (std.urlparse url) [ none ↦ [] | some parsed ↦ host_of std parsed ]

abbrev pub path_or_empty : Option Text → Text
path_or_empty none = []
path_or_empty (some path) = path

unfoldable pub evaluate_condition :
    Std → Condition → (tool_name : Text) → (tool_args : List (Text × Arg)) → Context → Bool
unfolding extract_path extract_url
evaluate_condition std (tool names) tool_name tool_args context = one_of tool_name names
evaluate_condition std (tool_not names) tool_name tool_args context = not (one_of tool_name names)
evaluate_condition std (deployment_mode modes) tool_name tool_args context =
    one_of context.deployment_mode modes
evaluate_condition std (job_classification classes) tool_name tool_args context =
    if_any (λ c. one_of c classes) context.job_classification
evaluate_condition std (path_matches pattern) tool_name tool_args context =
    let path = path_or_empty (extract_path tool_args) in
    std.fnmatch path pattern || std.fnmatch (std.basename path) pattern
evaluate_condition std (domain_not_in domains) tool_name tool_args context =
    not (if_any (λ url. one_of (url_host std url) (map std.lower domains)) (extract_url tool_args))
evaluate_condition std (tool_requires_egress needed) tool_name tool_args context =
    equals needed (one_of tool_name egress_tools)
evaluate_condition std unknown tool_name tool_args context = true

abbrev pub evaluate_conditions :
    Std → List Condition → (tool_name : Text) → (tool_args : List (Text × Arg)) → Context → Bool
evaluate_conditions std [] tool_name tool_args context = true
evaluate_conditions std (c ∷ conditions) tool_name tool_args context =
    let rest = evaluate_conditions std conditions tool_name tool_args context in
    if evaluate_condition std c tool_name tool_args context then rest else false
