-- ===== src/Catalog.antt =====
-- provider.go: DiscoverModels. The provider is an argument: its name, and what `Models`
-- and `Stream` return;
-- `before`, `on_error` and `after` are what `ctx.Err()` returned at its three calls.
pub mod Discovered
mod Examples
use fabricrunner.Prelude.{
  Option, none, some, List, [], ◌∷◌, ◌!=◌, Text, text_beq, text_eq, Sentinel, Error, sentinel,
  message, wrap, Result, ok, err, ◌>>=◌, ◌>>◌, fail_if, prefix_error, wrap_error,
}
use fabricrunner.Strings.{is_untrimmed}
use fabricrunner.Message.{ModelRequest}
use fabricrunner.Stream.{ModelStream}
use fabricrunner.Model.{ModelDescriptor, validate_descriptor, contains}

pub record Provider : Type 0 where
  pub name : Text
  pub models : Result (List ModelDescriptor)
  pub stream : ModelRequest → Result (Option ModelStream)

abbrev pub catalog_error : Error → Error
catalog_error e = wrap (sentinel Sentinel.provider_catalog) e

-- The loop over the descriptors, with the models seen so far. The copies are the values.
unfoldable pub check_catalog :
    Text → List Text → List ModelDescriptor → Result (List ModelDescriptor)
unfolding validate_descriptor contains text_beq
check_catalog name seen [] = ok []
check_catalog name seen (d ∷ ds) = do
  wrap_error (sentinel Sentinel.provider_catalog) (prefix_error "model" (validate_descriptor d))
  fail_if (d.ref.provider != name) (catalog_error (message "model belongs to another provider"))
  fail_if (contains seen d.ref.model) (catalog_error (message "duplicate model"))
  rest ← check_catalog name (d.ref.model ∷ seen) ds
  ok (d ∷ rest)

unfoldable pub cancelled_or : Option Error → Error → Error
cancelled_or none e = e
cancelled_or (some c) e = c

-- What `Models` returned, and the test of the context that follows.
unfoldable pub models_of : Provider → Option Error → Option Error → Result (List ModelDescriptor)
unfolding cancelled_or
models_of p on_error after = elim p.models [
  | err e ↦ err (cancelled_or on_error e)
  | ok ds ↦ elim after [ some e ↦ err e | none ↦ ok ds ]
]

unfoldable pub discover_models :
    Option Error → Option Error → Option Error → Option Provider → Result (List ModelDescriptor)
unfolding check_catalog models_of is_untrimmed
discover_models (some e) on_error after provider = err e
discover_models none on_error after none = err (catalog_error (message "provider is nil"))
discover_models none on_error after (some p) = do
  fail_if (is_untrimmed p.name)
      (catalog_error (message "provider name is empty or has surrounding whitespace"))
  ds ← models_of p on_error after
  check_catalog p.name [] ds
