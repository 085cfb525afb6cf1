-- ===== src/Editor.antt =====
-- The editor of a pipeline, components/Editor.js, with the errors that utils.js reads for it: Matching
-- has the regular expressions, Block the search for an attribute, Errors the text of the server,
-- Marks what is marked in the document, and Highlight the tokens of a line.
mod Matching
mod Block
mod Errors
mod Marks
mod Panel
mod Fits
mod Attribute
mod Found
mod Ranges
mod Braces
mod Highlight
mod Tokens
mod Progress
mod Tests
