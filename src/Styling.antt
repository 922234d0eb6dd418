-- ===== src/Styling.antt =====
-- styling/styling.go: message styling, the split of a text into styling tokens.
-- Style: the bits of a style. Layer: one level of block quotation, and how text in it is split.
-- Decoder: the levels inside one another, the split function and the tokens that Next prepares.
-- Sound, Keeps, Nested: what the split functions promise and leave as it was, at one level and at
-- all of them.
-- Text: what becomes of a whole text, however it is cut into pieces when it is read.
pub mod Style
pub mod Layer
pub mod Decoder
pub mod Sound
pub mod Keeps
pub mod Nested
pub mod Text
pub mod Tests
