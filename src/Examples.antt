-- ===== src/Examples.antt =====
-- The theorems on concrete inputs, and runs of the models.
mod Strip
mod Numbers
mod Text
mod Filters
mod Games
mod Files
mod Split
mod Philosophers
mod Truncate
mod Txtcnv
mod Extrbin
mod Fraction
mod Priority
mod Resize
mod FileTimes
mod Random
mod Link
mod Mapping
mod Rawcopy
mod Replace
mod Series
