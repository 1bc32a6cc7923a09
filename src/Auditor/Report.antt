-- ===== src/Auditor/Report.antt =====
-- Notes, recommendations and reports.
use secureblue.Base.{Option, List, String}
use secureblue.Base.{Str}
use secureblue.Auditor.Status.{Status}

pub record Note : Type 0 where
  pub text : Str
  pub status : Option Status

pub record Recommendation : Type 0 where
  pub text : Str
  pub mergeable_name : Option Str

pub record Report : Type 0 where
  pub description : String
  pub status : Status
  pub notes : List Note
  pub recs : List Recommendation
