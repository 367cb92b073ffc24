-- ===== src/Tests.antt =====
-- Runs of the model at concrete inputs, and the theorems at inputs where their hypotheses hold.
mod Search
mod Clock
mod Snarf
mod Ws
mod Open
mod Rest
mod Plx
mod Bitfin
mod Quotes
mod Cex
mod Btsp
mod Trt
mod Btcc
mod Fix
mod Okfix
