-- ===== src/Catalog/Examples.antt =====
-- The theorem on the catalog at a provider with one model.
use fabricrunner.Prelude.{
  ◌≡◌, refl, true, false, none, some, [], ◌∷◌, All, text, text_eq, message, ok, err, all_checks,
  pos,
}
use fabricrunner.Strings.{is_untrimmed}
use fabricrunner.Model.{ModelDescriptor, none_mode, ToolUseMode-discrete}
use fabricrunner.Catalog.{Provider, discover_models}
use fabricrunner.Catalog.Discovered.{IsOffered, DistinctModels, discover_models-listed}

abbrev one_model : ModelDescriptor
one_model = record {
  ref = record { provider = text "p"; model = text "m" };
  capabilities = record {
    context_tokens = pos 100;
    max_output_tokens = pos 10;
    modalities = [];
    tool_use = none_mode;
    parallel_tool_calls = false;
    strict_tool_schemas = false;
    dynamic_tools = false;
    multimodal_tool_results = false;
    streaming = true;
    structured_output = false;
    prompt_caching = false;
    automatic_compaction = false;
    reasoning_summaries = false;
  };
  labels = [];
}

abbrev one_provider : Provider
one_provider = record {
  name = text "p";
  models = ok (one_model ∷ []);
  stream = λ r. err (message "closed");
}

discovered : discover_models none none none (some one_provider) ≡ ok (one_model ∷ [])
unfolding discover_models all_checks ToolUseMode-discrete
discovered = refl

discover_models-listed_example :
    (p : Provider) × (some one_provider ≡ some p)
    × (is_untrimmed p.name ≡ false)
    × (p.models ≡ ok (one_model ∷ []))
    × All (IsOffered p.name) (one_model ∷ [])
    × DistinctModels (one_model ∷ [])
discover_models-listed_example =
    discover_models-listed none none none (some one_provider) (one_model ∷ []) discovered
