-- ===== src/Contracts.antt =====
-- The enumerations of shared/contracts/python/iprisk_contracts/common.py, and identity of members.
use mathlib.Core.Bool.{Bool, true, false}

pub data SourceType : Type 0 where
  google_drive github local : SourceType

pub data ChangeType : Type 0 where
  create update delete move : ChangeType

pub data ArtifactKind : Type 0 where
  text source_code manifest lockfile document_text unknown : ArtifactKind

pub data ContentScope : Type 0 where
  full_text changeset_with_context metadata_only unsupported : ContentScope

pub data SegmentKind : Type 0 where
  full changed context : SegmentKind

pub data AnalysisType : Type 0 where
  patent license : AnalysisType

pub data AnalysisStatus : Type 0 where
  succeeded failed inconclusive skipped : AnalysisStatus

pub data AnalysisCoverage : Type 0 where
  complete partial none : AnalysisCoverage

pub data ReviewPriority : Type 0 where
  low medium high indeterminate : ReviewPriority

abbrev pub same_source : SourceType → SourceType → Bool
same_source SourceType.google_drive SourceType.google_drive = true
same_source SourceType.github SourceType.github = true
same_source SourceType.local SourceType.local = true
same_source _ _ = false

abbrev pub same_change : ChangeType → ChangeType → Bool
same_change ChangeType.create ChangeType.create = true
same_change ChangeType.update ChangeType.update = true
same_change ChangeType.delete ChangeType.delete = true
same_change ChangeType.move ChangeType.move = true
same_change _ _ = false

abbrev pub same_analysis : AnalysisType → AnalysisType → Bool
same_analysis AnalysisType.patent AnalysisType.patent = true
same_analysis AnalysisType.license AnalysisType.license = true
same_analysis _ _ = false

pub data LicensePolicyOutcome : Type 0 where
  no_action notice_required review_required policy_conflict unknown : LicensePolicyOutcome
