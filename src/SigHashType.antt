-- ===== src/SigHashType.antt =====
-- bitcoinsuite-core/src/sighashtype.rs: the flags that say what a signature covers.
pub mod Flags

pub data SigHashTypeInputs : Type 0 where
  fixed anyone_can_pay : SigHashTypeInputs

pub data SigHashTypeOutputs : Type 0 where
  all nothing single : SigHashTypeOutputs

pub data SigHashTypeVariant : Type 0 where
  legacy bip143 : SigHashTypeVariant

pub record SigHashType : Type 0 where
  pub variant : SigHashTypeVariant
  pub input_type : SigHashTypeInputs
  pub output_type : SigHashTypeOutputs
