-- ===== src/Coding.antt =====
-- The coding matrices: ECServer/GCRSMatrix.c, of which ECClientLib has a copy.
mod Invert
mod Parity
mod RowSteps
mod Upper
mod Inverse
mod Kernel
mod Decode
mod Vector
mod Restore
mod Sums
mod Rebuild
mod Known
mod ParityDevice
mod Decoding
mod Decoded
mod Erasures
mod Tests
mod Erased
