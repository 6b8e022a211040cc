-- ===== src/Frontend/Validate/Rejects.antt =====
-- Which pipeline `validate` complains about.
use caml.Base.{
  ◌≡◌, ◌≢◌, refl, sym, ◌∙◌, ◌⊎◌, false, ◌&&◌, List, [], ◌∷◌, ◌++◌, none, is_none, is_empty, err,
  arith, All, All-map_imp, try_each, try_each-eq-err,
}
use caml.Frontend.Validate.Accepts.{IsNode-iff}
use caml.Frontend.Validate.{validate, validate_pipeline_node}
use caml.Frontend.WellFormed.{IsNode}
use caml.Frontend.{PipelineNode, CamlManifest, ManifestError, UrlParser}

module _ (url_parse : UrlParser) where
  -- The first pipeline that is not well formed, whose check returns `e`.
  pub record FirstBad (ps : List PipelineNode) (e : ManifestError) : Type 0 where
    pub before : List PipelineNode
    pub bad : PipelineNode
    pub after : List PipelineNode
    pub splits : ps ≡ before ++ bad ∷ after
    pub fine_before : All (IsNode url_parse) before
    pub is_bad : ¬ IsNode url_parse bad
    pub complains : validate_pipeline_node url_parse bad ≡ err e

  not_empty_list : (ps : List PipelineNode) → ps ≢ [] → is_empty ps ≡ false
  not_empty_list [] h = absurd (h refl)
  not_empty_list (p ∷ ps) h = refl

  has_limit_test :
      (m : CamlManifest)
      → (m.system.cma_allocation_limit ≢ none) ⊎ (m.system.media_memory_limit ≢ none)
      → (is_none m.system.cma_allocation_limit && is_none m.system.media_memory_limit) ≡ false
  has_limit_test m h = ground arith

  -- If a manifest has a limit and a pipeline, and `validate` returns an error, then it is the error of
  -- its first pipeline that is not well formed.
  pub validate-FirstBad :
      (m : CamlManifest) (e : ManifestError)
      → (m.system.cma_allocation_limit ≢ none) ⊎ (m.system.media_memory_limit ≢ none)
      → m.pipelines ≢ []
      → validate url_parse m ≡ err e
      → FirstBad m.pipelines e
  unfolding validate
  validate-FirstBad m e limit pipes h =
      let loop : try_each (validate_pipeline_node url_parse) m.pipelines ≡ err e =
        rw (has_limit_test m limit, not_empty_list m.pipelines pipes) at h in
      let (before, bad, after, split, fine, fails) =
        try_each-eq-err (validate_pipeline_node url_parse) m.pipelines loop in
      record {
        before = before;
        bad = bad;
        after = after;
        splits = split;
        fine_before =
            All-map_imp _ _ before (λ p accepted. (IsNode-iff url_parse p).0 accepted) fine;
        is_bad = λ node. cc (sym fails ∙ (IsNode-iff url_parse bad).1 node);
        complains = fails;
      }
